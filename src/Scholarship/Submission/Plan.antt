-- ===== src/Scholarship/Submission/Plan.antt =====
-- Which calls a submission makes: a plan of them, written from the candidates alone, and the proof that
-- the node follows it whatever the product answers.
use edufurther_agent_be.Base.{
  ◌≡◌, sym, ap, ◌∙◌, inl, inr, Bool, true, false, not, ◌&&◌, Option, none, some, List, [], ◌∷◌,
  ◌++◌, Text, lit, is_empty, keep, get_or, Bool-cases, Option-cases, arith, if◌then◌else◌,
}
use mathlib.Core.List.{append_assoc, append-nil}
use edufurther_agent_be.Errors.{ok, Result-cases, ok-inj}
use edufurther_agent_be.Json.{Json, Fields}
use edufurther_agent_be.Integrations.Product.{ProductHttp, Client, Call}
use edufurther_agent_be.Scholarship.Schemas.{Candidate, outcome_value, has_text, get_text, model}
use edufurther_agent_be.Scholarship.Payloads.{recommendation, candidate_recommendation}
use edufurther_agent_be.Scholarship.Workflow.{State}
use edufurther_agent_be.Scholarship.Submission.{
  Session, Send, pure, tell, asks_review, is_pending, take_ids, by_title, submit_candidates, attach,
  record_run, record_candidate_run, opened_note, request_review, review_if, submit_known,
  submit_one, submit_each, record_job_run, submit_run, submit_all, job_outcome, new_candidates_call,
  new_evidence_call, new_run_call, new_review_call,
}
use edufurther_agent_be.Scholarship.Submission.Sends.{
  continue_ok, Logs, Logs-of_eq, pure-Logs, bind-Logs, attempt-Logs,
}

abbrev pub when : Bool → Call → List Call
when true call = call ∷ []
when false call = []

module _ (http : ProductHttp) (client : Client) (repr : Text → Text) (state : State) where
  abbrev evidence_plan : Candidate → List Call
  evidence_plan c = when (not (is_empty c.evidence)) (new_evidence_call http client repr state c)

  abbrev run_plan : Candidate → List Call
  run_plan c = elim c.outcome [
    | none ↦ []
    | some outcome ↦
        new_run_call http client repr state (get_or c.discovery_id []) (outcome_value outcome)
          (candidate_recommendation c) (model c) (get_text (lit "extract") c.prompt_versions)
        ∷ []
  ]

  abbrev review_plan : Bool → Candidate → List Call
  review_plan shadow c =
      when (not shadow && asks_review c.outcome) (new_review_call http client repr state c)

  -- The calls for a candidate: its evidence, its run, and a review where one is due.
  abbrev candidate_plan : Bool → Candidate → List Call
  candidate_plan shadow c =
      if has_text c.discovery_id
      then evidence_plan c ++ (run_plan c ++ review_plan shadow c)
      else []

  abbrev each_plan : Bool → List Candidate → List Call
  each_plan shadow [] = []
  each_plan shadow (c ∷ cs) = candidate_plan shadow c ++ each_plan shadow cs

  abbrev job_run : List Candidate → Call
  job_run candidates =
      new_run_call http client repr state state.discovery.discovery_id
        (job_outcome http client repr state) (recommendation state candidates) state.page_model
        state.page_prompt_version

  attach-Logs :
      (c : Candidate)
      → has_text c.discovery_id ≡ true
      → Logs (attach http client repr state c) (evidence_plan c)
  unfolding attach
  attach-Logs c h = elim (Bool-cases (is_empty c.evidence)) [
    | inl e ↦ rw e (pure-Logs 0)
    | inr n ↦
        rw (n, h)
          (bind-Logs _ _ (new_evidence_call http client repr state c ∷ []) []
            (attempt-Logs http client repr state (new_evidence_call http client repr state c) _)
            (λ answer. pure-Logs _))
  ]

  record_run-Logs :
      (id outcome : Text) (body : Json) (by prompt : Option Text)
      → Logs
          (record_run http client repr state id outcome body by prompt)
          (new_run_call http client repr state id outcome body by prompt ∷ [])
  unfolding record_run
  record_run-Logs id outcome body by prompt =
      bind-Logs _ _ (new_run_call http client repr state id outcome body by prompt ∷ []) []
        (attempt-Logs http client repr state _ _) (λ answer. pure-Logs tt)

  record_candidate_run-Logs :
      (c : Candidate)
      → has_text c.discovery_id ≡ true
      → Logs (record_candidate_run http client repr state c) (run_plan c)
  unfolding record_candidate_run
  record_candidate_run-Logs c h = elim (Option-cases c.outcome) [
    | inl e ↦ rw e (pure-Logs tt)
    | inr (o, e) ↦ rw (e, h) (record_run-Logs _ _ _ _ _)
  ]

  opened_note-Logs :
      (c : Candidate) (answer : Option Fields)
      → Logs (opened_note http client repr state c answer) []
  unfolding opened_note tell
  opened_note-Logs c none = record { logged = λ s a h. sym (append-nil s.calls) }
  opened_note-Logs c (some result) = record { logged = λ s a h. ground (arith, append-nil s.calls) }

  review_if-Logs :
      (shadow : Bool) (c : Candidate)
      → has_text c.discovery_id ≡ true
      → Logs (review_if http client repr state shadow c) (review_plan shadow c)
  unfolding review_if request_review
  review_if-Logs shadow c h = elim (Bool-cases (not shadow && asks_review c.outcome)) [
    | inl e ↦
        rw (e, h)
          (bind-Logs _ _ (new_review_call http client repr state c ∷ []) []
            (attempt-Logs http client repr state _ _) (opened_note-Logs c))
    | inr n ↦ rw n (pure-Logs tt)
  ]

  submit_known-Logs :
      (shadow : Bool) (c : Candidate)
      → has_text c.discovery_id ≡ true
      → Logs
          (submit_known http client repr state shadow c)
          (evidence_plan c ++ (run_plan c ++ review_plan shadow c))
  unfolding submit_known
  submit_known-Logs shadow c h =
      Logs-of_eq _ _ _
        (ap (λ t. evidence_plan c ++ (run_plan c ++ t)) (append-nil (review_plan shadow c)))
        (bind-Logs _ _ (evidence_plan c) (run_plan c ++ (review_plan shadow c ++ []))
          (attach-Logs c h)
          (λ submitted.
            bind-Logs _ _ (run_plan c) (review_plan shadow c ++ []) (record_candidate_run-Logs c h)
              (λ u.
                bind-Logs _ _ (review_plan shadow c) [] (review_if-Logs shadow c h)
                  (λ v. pure-Logs submitted))))

  submit_one-Logs :
      (shadow : Bool) (c : Candidate)
      → Logs (submit_one http client repr state shadow c) (candidate_plan shadow c)
  unfolding submit_one
  submit_one-Logs shadow c = elim (Bool-cases (has_text c.discovery_id)) [
    | inr n ↦ rw n (pure-Logs 0)
    | inl h ↦ rw h (submit_known-Logs shadow c h)
  ]

  submit_each-Logs :
      (shadow : Bool) (cs : List Candidate)
      → Logs (submit_each http client repr state shadow cs) (each_plan shadow cs)
  unfolding submit_each
  submit_each-Logs shadow [] = pure-Logs 0
  submit_each-Logs shadow (c ∷ cs) =
      Logs-of_eq _ _ _ (ap (λ t. candidate_plan shadow c ++ t) (append-nil (each_plan shadow cs))) (
        bind-Logs _ _ (candidate_plan shadow c) (each_plan shadow cs ++ [])
          (submit_one-Logs shadow c)
          (λ n.
            bind-Logs _ _ (each_plan shadow cs) [] (submit_each-Logs shadow cs) (λ m. pure-Logs _)))

  record_job_run-Logs :
      (cs : List Candidate) → Logs (record_job_run http client repr state cs) (job_run cs ∷ [])
  unfolding record_job_run
  record_job_run-Logs cs = record_run-Logs _ _ _ _ _

  submit_run-Logs :
      (shadow : Bool) (cs : List Candidate)
      → Logs (submit_run http client repr state shadow cs) (each_plan shadow cs ++ job_run cs ∷ [])
  unfolding submit_run
  submit_run-Logs shadow cs =
      bind-Logs _ _ (each_plan shadow cs) (job_run cs ∷ []) (submit_each-Logs shadow cs)
        (λ n. bind-Logs _ _ (job_run cs ∷ []) [] (record_job_run-Logs cs) (λ u. pure-Logs cs))

  -- The batch of new candidates, outside shadow mode and where there are any.
  abbrev batch_plan : Bool → List Candidate → List Call
  batch_plan shadow cs =
      let pending = keep (is_pending http client repr state) cs in
      when (not shadow && not (is_empty pending))
        (new_candidates_call http client repr state pending)

  take_ids-Logs :
      (cs : List Candidate) (answer : Option Fields)
      → Logs (take_ids http client repr state cs answer) []
  unfolding take_ids tell
  take_ids-Logs cs none = pure-Logs cs
  take_ids-Logs cs (some result) = record {
    logged = λ s a h. elim (Result-cases (by_title http client repr state result)) [
      | inl (exc, e) ↦ absurd (ground (arith, e))
      | inr (found, e) ↦ rw (e, take_ids) (sym (append-nil s.calls))
    ];
  }

  submit_candidates-Logs :
      (cs : List Candidate)
      → Logs (submit_candidates http client repr state cs) (batch_plan false cs)
  unfolding submit_candidates
  submit_candidates-Logs cs =
      elim (Bool-cases (is_empty (keep (is_pending http client repr state) cs))) [
        | inl e ↦ rw e (pure-Logs cs)
        | inr n ↦ rw n (
            bind-Logs _ _
              (new_candidates_call http client repr state
                  (keep (is_pending http client repr state) cs)
                ∷ [])
              [] (attempt-Logs http client repr state _ _) (take_ids-Logs cs))
      ]

  first_candidates-Logs :
      (shadow : Bool)
      → Logs
          (if shadow
            then pure state.candidates
            else submit_candidates http client repr state state.candidates)
          (batch_plan shadow state.candidates)
  first_candidates-Logs true = pure-Logs state.candidates
  first_candidates-Logs false = submit_candidates-Logs state.candidates

  pub submit_run-candidates :
      (shadow : Bool) (cs final : List Candidate) (s : Session)
      → (submit_run http client repr state shadow cs s).0 ≡ ok final
      → cs ≡ final
  unfolding submit_run
  submit_run-candidates shadow cs final s h =
      let (n, e, f) = continue_ok (submit_each http client repr state shadow cs s) _ final h in
      let (u, e', f') =
        continue_ok
          (record_job_run http client repr state cs
            (submit_each http client repr state shadow cs s).1)
          (λ (u : Unit). pure cs) final (ap (λ t. t.0) (sym f) ∙ h) in
      ok-inj cs final (ap (λ t. t.0) (sym f') ∙ (ap (λ t. t.0) (sym f) ∙ h))

  -- The calls of a submission whose candidates are `after` once they were submitted.
  abbrev pub submission_plan : Bool → List Candidate → List Call
  submission_plan shadow after =
      batch_plan shadow state.candidates ++ (each_plan shadow after ++ job_run after ∷ [])

  pub submit_all-calls :
      (shadow : Bool) (final : List Candidate) (s : Session)
      → (submit_all http client repr state shadow s).0 ≡ ok final
      → (submit_all http client repr state shadow s).1.calls
        ≡ s.calls ++ submission_plan shadow final
  unfolding submit_all
  submit_all-calls shadow final s h =
      let first : Send (List Candidate) =
        if shadow
        then pure state.candidates
        else submit_candidates http client repr state state.candidates in
      let (cs, e, f) = continue_ok (first s) (submit_run http client repr state shadow) final h in
      let same = submit_run-candidates shadow cs final (first s).1 (ap (λ t. t.0) (sym f) ∙ h) in
      ap (λ t. t.1.calls) f
      ∙ (submit_run-Logs shadow cs).logged (first s).1 final (ap (λ t. t.0) (sym f) ∙ h)
      ∙ ap (λ t. t ++ (each_plan shadow cs ++ job_run cs ∷ []))
          ((first_candidates-Logs shadow).logged s cs e)
      ∙ append_assoc s.calls (batch_plan shadow state.candidates)
          (each_plan shadow cs ++ job_run cs ∷ [])
      ∙ ap (λ t. s.calls ++ submission_plan shadow t) same
