-- ===== src/Scholarship/Submission/Shadow.antt =====
-- What shadow mode keeps from the product: the kinds of call that a session makes, raised or not.
use edufurther_agent_be.Base.{
  ◌≡◌, inl, inr, true, not, Option, List, [], ◌∷◌, ◌||◌, Text, is_empty, All, Bool-cases,
  Option-cases,
}
use edufurther_agent_be.Errors.{Result, ok, raise, Result-cases}
use edufurther_agent_be.Json.{Json}
use edufurther_agent_be.Settings.{Settings}
use edufurther_agent_be.Integrations.Product.{
  ProductHttp, ProductSettings, Client, Call, candidates_call, evidence_call, review_call, run_call,
  client_from_settings,
}
use edufurther_agent_be.Scholarship.Schemas.{Candidate, has_text}
use edufurther_agent_be.Scholarship.Workflow.{State}
use edufurther_agent_be.Scholarship.Submission.{
  Session, pure, attach, record_run, record_candidate_run, review_if, submit_known, submit_one,
  submit_each, record_job_run, submit_run, submit_all, submitted, submit_to_product,
  new_evidence_call, new_run_call,
}
use edufurther_agent_be.Scholarship.Submission.Sends.{Keeps, bind-Keeps, attempt-Keeps}
use edufurther_agent_be.Scholarship.Submission.Whole.{start, submit_to_product_configured}

-- A call that writes only to the tables that the agent owns.
abbrev pub IsUnseen : Call → Type 0
IsUnseen (candidates_call _ _ _) = ⊥
IsUnseen (evidence_call _ _ _ _ _ _) = Unit
IsUnseen (review_call _ _ _) = ⊥
IsUnseen (run_call _ _ _ _ _ _ _) = Unit

pure-Keeps : {A : Type 0} (P : Call → Type 0) (a : A) → Keeps P (pure a)
pure-Keeps P a = record { kept = λ s h. h }

module _ (http : ProductHttp) (client : Client) (repr : Text → Text) (state : State) where
  attach-Keeps : (c : Candidate) → Keeps IsUnseen (attach http client repr state c)
  unfolding attach new_evidence_call
  attach-Keeps c = elim (Bool-cases (is_empty c.evidence || not (has_text c.discovery_id))) [
    | inl e ↦ rw e (pure-Keeps IsUnseen 0)
    | inr n ↦ rw n (
        bind-Keeps IsUnseen _ _ (attempt-Keeps http client repr state IsUnseen _ _ tt)
          (λ answer. pure-Keeps IsUnseen _))
  ]

  record_run-Keeps :
      (id outcome : Text) (body : Json) (by prompt : Option Text)
      → Keeps IsUnseen (record_run http client repr state id outcome body by prompt)
  unfolding record_run new_run_call
  record_run-Keeps id outcome body by prompt =
      bind-Keeps IsUnseen _ _ (attempt-Keeps http client repr state IsUnseen _ _ tt)
        (λ answer. pure-Keeps IsUnseen tt)

  record_candidate_run-Keeps :
      (c : Candidate) → Keeps IsUnseen (record_candidate_run http client repr state c)
  unfolding record_candidate_run
  record_candidate_run-Keeps c = elim (Option-cases c.outcome) [
    | inl e ↦ rw e (pure-Keeps IsUnseen tt)
    | inr (o, e) ↦ elim (Bool-cases (has_text c.discovery_id)) [
      | inl h ↦ rw (e, h) (record_run-Keeps _ _ _ _ _)
      | inr n ↦ rw (e, n) (pure-Keeps IsUnseen tt)
    ]
  ]

  review_if-Keeps : (c : Candidate) → Keeps IsUnseen (review_if http client repr state true c)
  unfolding review_if
  review_if-Keeps c = pure-Keeps IsUnseen tt

  submit_known-Keeps : (c : Candidate) → Keeps IsUnseen (submit_known http client repr state true c)
  unfolding submit_known
  submit_known-Keeps c = bind-Keeps IsUnseen _ _ (attach-Keeps c) (λ submitted.
      bind-Keeps IsUnseen _ _ (record_candidate_run-Keeps c)
        (λ u. bind-Keeps IsUnseen _ _ (review_if-Keeps c) (λ v. pure-Keeps IsUnseen submitted)))

  submit_one-Keeps : (c : Candidate) → Keeps IsUnseen (submit_one http client repr state true c)
  unfolding submit_one
  submit_one-Keeps c = elim (Bool-cases (has_text c.discovery_id)) [
    | inl e ↦ rw e (submit_known-Keeps c)
    | inr n ↦ rw n (pure-Keeps IsUnseen 0)
  ]

  submit_each-Keeps :
      (cs : List Candidate) → Keeps IsUnseen (submit_each http client repr state true cs)
  unfolding submit_each
  submit_each-Keeps [] = pure-Keeps IsUnseen 0
  submit_each-Keeps (c ∷ cs) =
      bind-Keeps IsUnseen _ _ (submit_one-Keeps c)
        (λ n. bind-Keeps IsUnseen _ _ (submit_each-Keeps cs) (λ m. pure-Keeps IsUnseen _))

  submit_run-Keeps :
      (cs : List Candidate) → Keeps IsUnseen (submit_run http client repr state true cs)
  unfolding submit_run record_job_run
  submit_run-Keeps cs =
      bind-Keeps IsUnseen _ _ (submit_each-Keeps cs)
        (λ n. bind-Keeps IsUnseen _ _ (record_run-Keeps _ _ _ _ _) (λ u. pure-Keeps IsUnseen cs))

  submit_all-Keeps : Keeps IsUnseen (submit_all http client repr state true)
  unfolding submit_all
  submit_all-Keeps =
      bind-Keeps IsUnseen (pure state.candidates) _ (pure-Keeps IsUnseen state.candidates)
        submit_run-Keeps

submitted-Keeps :
    (P : Call → Type 0) (state : State) (t : Result (List Candidate) × Session)
    → All P t.1.calls
    → All P (submitted state t).1
unfolding submitted
submitted-Keeps P state (raise exc, s) h = h
submitted-Keeps P state (ok cs, s) h = h

-- In shadow mode, whatever the product answers, and also where the submission raises, no call creates
-- candidates and none asks for a review.
pub submit_to_product-IsUnseen :
    (settings : Settings) (product : ProductSettings) (http : ProductHttp) (repr : Text → Text)
    (state : State)
    → settings.shadow_mode ≡ true
    → All IsUnseen (submit_to_product settings product http repr state).1
unfolding submit_to_product
submit_to_product-IsUnseen settings product http repr state h =
    elim (Result-cases (client_from_settings product)) [
      | inl (exc, e) ↦ rw (e, submit_to_product) tt
      | inr (client, e) ↦
          rw (submit_to_product_configured settings product http repr state client e) (
            rw h (
              submitted-Keeps IsUnseen state (submit_all http client repr state true start)
                ((submit_all-Keeps http client repr state).kept start tt)))
    ]
