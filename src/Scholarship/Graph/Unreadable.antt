-- ===== src/Scholarship/Graph/Unreadable.antt =====
-- No verdict on a source page that nobody could read, in a whole run.
use edufurther_agent_be.Base.{
  ℕ, zero, suc, ◌≡◌, ◌≢◌, refl, sym, ap, ◌∙◌, ◌⊎◌, inl, inr, Bool, true, false, Option, none, some,
  List, Text, Bool-cases,
}
use edufurther_agent_be.Errors.{Result, ok, raise, Result-cases, ok-inj}
use edufurther_agent_be.Integrations.Product.{Call, client_from_settings}
use edufurther_agent_be.Scholarship.Schemas.{Candidate, AgentOutcome, more_evidence_required}
use edufurther_agent_be.Scholarship.Workflow.{
  State, Node, to_classify_page, to_split_candidates, to_single_candidate, to_decide,
  route_after_fetch, route_after_classification, decide, decide_each, decide_all,
}
use edufurther_agent_be.Scholarship.Workflow.Decision.{decide_unreadable, decide-cases}
use edufurther_agent_be.Scholarship.Submission.{Session, submitted, submit_to_product}
use edufurther_agent_be.Scholarship.Submission.Whole.{submit_to_product_configured}
use edufurther_agent_be.Scholarship.Graph.{
  Services, World, Stage, loading, fetching, classifying, splitting, single, deduping, extracting,
  finding, fetching_official, comparing, reading_eligibility, deciding, submitting, finished,
  is_finished, stage_of, next, perform, run, with_calls,
}
use edufurther_agent_be.Scholarship.Graph.Paths.{run_on, run_out, run_finished}

readable_or : (u : Option Bool) → (u ≡ some false) ⊎ (u ≢ some false)
readable_or none = inr (λ e. cc e)
readable_or (some true) = inr (λ e. cc e)
readable_or (some false) = inl refl

decide_each-page_usable : (s : State) → (decide_each s).page_usable ≡ s.page_usable
unfolding decide_each
decide_each-page_usable s = refl

decide_all-page_usable :
    (o : AgentOutcome) (reason why : Text) (s : State)
    → (decide_all o reason why s).page_usable ≡ s.page_usable
unfolding decide_all
decide_all-page_usable o reason why s = refl

decide-page_usable : (s : State) → (decide s).page_usable ≡ s.page_usable
decide-page_usable s = elim (decide-cases s) [
  | inl e ↦ ap (λ t. t.page_usable) e ∙ decide_each-page_usable s
  | inr (o, reason, why, e, m) ↦ ap (λ t. t.page_usable) e ∙ decide_all-page_usable o reason why s
]

-- A state that does not judge an unreadable page.
abbrev Fair : State → Type 0
Fair s = (s.page_usable ≢ some false) ⊎ (s.outcome ≡ some more_evidence_required)

decide-Fair : (s : State) → Fair (decide s)
decide-Fair s = elim (readable_or s.page_usable) [
  | inl e ↦ inr (decide_unreadable s e)
  | inr n ↦ inl (λ e. n (sym (decide-page_usable s) ∙ e))
]

Fair-kept :
    (s s' : State) → s'.page_usable ≡ s.page_usable → s'.outcome ≡ s.outcome → Fair s → Fair s'
Fair-kept s s' u o (inl n) = inl (λ e. n (sym u ∙ e))
Fair-kept s s' u o (inr e) = inr (o ∙ e)

submitted_keeps :
    (s s' : State) (t : Result (List Candidate) × Session)
    → (submitted s t).0 ≡ ok s'
    → (s'.page_usable ≡ s.page_usable) × (s'.outcome ≡ s.outcome)
unfolding submitted
submitted_keeps s s' (raise exc, t) h = cc
submitted_keeps s s' (ok cs, t) h = rw (sym (ok-inj _ s' h)) (refl, refl)

module _ (env : Services) where
  submit_keeps :
      (s s' : State)
      → (submit_to_product env.settings env.product env.http env.repr s).0 ≡ ok s'
      → (s'.page_usable ≡ s.page_usable) × (s'.outcome ≡ s.outcome)
  unfolding submit_to_product
  submit_keeps s s' h = elim (Result-cases (client_from_settings env.product)) [
    | inl (exc, e) ↦ rw (sym (ok-inj _ s' (rw (e, submit_to_product) at h))) (refl, refl)
    | inr (client, e) ↦ submitted_keeps s s' _ (
        rw (submit_to_product_configured env.settings env.product env.http env.repr s client e) at
          h)
  ]

  -- What holds at a stage: behind the decision, no unreadable page was judged.
  abbrev Invariant : Stage → State → Type 0
  Invariant submitting s = Fair s
  Invariant finished s = Fair s
  Invariant loading s = Unit
  Invariant fetching s = Unit
  Invariant classifying s = Unit
  Invariant splitting s = Unit
  Invariant single s = Unit
  Invariant deduping s = Unit
  Invariant extracting s = Unit
  Invariant finding s = Unit
  Invariant fetching_official s = Unit
  Invariant comparing s = Unit
  Invariant reading_eligibility s = Unit
  Invariant deciding s = Unit

  stage_of-Invariant : (node : Node) (s : State) → Invariant (stage_of node) s
  unfolding stage_of
  stage_of-Invariant to_classify_page s = tt
  stage_of-Invariant to_split_candidates s = tt
  stage_of-Invariant to_single_candidate s = tt
  stage_of-Invariant to_decide s = tt

  with_calls_ok :
      (w w' : World) (s' : State) (t : Result State × List Call)
      → with_calls env w t ≡ (ok s', w')
      → t.0 ≡ ok s'
  unfolding with_calls
  with_calls_ok w w' s' (result, calls) h = ap (λ e. e.0) h

  perform-Invariant :
      (stage : Stage) (s s' : State) (w w' : World)
      → perform env stage s w ≡ (ok s', w')
      → Invariant stage s
      → Invariant (next stage s') s'
  unfolding perform next
  perform-Invariant loading s s' w w' h i = tt
  perform-Invariant fetching s s' w w' h i = stage_of-Invariant (route_after_fetch s') s'
  perform-Invariant classifying s s' w w' h i =
      stage_of-Invariant (route_after_classification s') s'
  perform-Invariant splitting s s' w w' h i = tt
  perform-Invariant single s s' w w' h i = tt
  perform-Invariant deduping s s' w w' h i = tt
  perform-Invariant extracting s s' w w' h i = tt
  perform-Invariant finding s s' w w' h i = tt
  perform-Invariant fetching_official s s' w w' h i = tt
  perform-Invariant comparing s s' w w' h i = tt
  perform-Invariant reading_eligibility s s' w w' h i = tt
  perform-Invariant deciding s s' w w' h i =
      rw (sym (ok-inj (decide s) s' (ap (λ e. e.0) h))) (decide-Fair s)
  perform-Invariant submitting s s' w w' h i =
      let (u, o) = submit_keeps s s' (with_calls_ok w w' s' _ h) in Fair-kept s s' u o i
  perform-Invariant finished s s' w w' h i = rw (sym (ok-inj s s' (ap (λ e. e.0) h))) i

  finished-Fair :
      (stage : Stage) (s : State) → is_finished stage ≡ true → Invariant stage s → Fair s
  finished-Fair submitting s y i = i
  finished-Fair finished s y i = i
  finished-Fair loading s y i = cc
  finished-Fair fetching s y i = cc
  finished-Fair classifying s y i = cc
  finished-Fair splitting s y i = cc
  finished-Fair single s y i = cc
  finished-Fair deduping s y i = cc
  finished-Fair extracting s y i = cc
  finished-Fair finding s y i = cc
  finished-Fair fetching_official s y i = cc
  finished-Fair comparing s y i = cc
  finished-Fair reading_eligibility s y i = cc
  finished-Fair deciding s y i = cc

  ended-Fair :
      (fuel : ℕ) (stage : Stage) (s s' : State) (w w' : World)
      → is_finished stage ≡ true
      → Invariant stage s
      → run env fuel stage s w ≡ some (ok s', w')
      → Fair s'
  ended-Fair fuel stage s s' w w' y i h =
      let same : ◌≡◌ {A = State} s s' = cc (sym (run_finished env fuel stage s w y) ∙ h) in
      rw (sym same) (finished-Fair stage s y i)

  run-Fair :
      (fuel : ℕ) (stage : Stage) (s s' : State) (w w' : World)
      → Invariant stage s
      → run env fuel stage s w ≡ some (ok s', w')
      → Fair s'
  run-Fair zero stage s s' w w' i h = elim (Bool-cases (is_finished stage)) [
    | inl y ↦ ended-Fair zero stage s s' w w' y i h
    | inr n ↦ absurd (run_out env stage s s' w w' n h)
  ]
  run-Fair (suc fuel) stage s s' w w' i h = elim (Bool-cases (is_finished stage)) [
    | inl y ↦ ended-Fair (suc fuel) stage s s' w w' y i h
    | inr n ↦
        let (s₁, w₁, e, f) = run_on env fuel stage s s' w w' n h in
        run-Fair fuel (next stage s₁) s₁ s' w₁ w' (perform-Invariant stage s s₁ w w₁ e i) f
  ]

  -- A run that ends well asks for more evidence where the source page could not be read.
  pub run_unreadable :
      (fuel : ℕ) (s s' : State) (w w' : World)
      → run env fuel loading s w ≡ some (ok s', w')
      → s'.page_usable ≡ some false
      → s'.outcome ≡ some more_evidence_required
  run_unreadable fuel s s' w w' h u = elim (run-Fair fuel loading s s' w w' tt h) [
    | inl n ↦ absurd (n u)
    | inr e ↦ e
  ]
