-- ===== src/Scholarship/Submission.antt =====
-- src/app/usecases/scholarship_finder/submission.py: the node that writes a run back to the product. A
-- session carries the calls made so far, on which the product's answers may depend, and the notes.
pub mod Sends
pub mod Plan
pub mod Whole
pub mod Shadow
pub mod Ends
pub mod Failures
use edufurther_agent_be.Base.{
  ℕ, zero, suc, ◌+◌, Bool, true, false, not, ◌&&◌, ◌||◌, Option, none, some, List, [], ◌∷◌, ◌++◌,
  map, Text, lit, is_empty, length, keep, is_some, get_or, if◌then◌else◌,
}
use edufurther_agent_be.Errors.{ErrorKind, scholarship_finder_error, PyError, Result, ok, raise}
use edufurther_agent_be.Json.{
  Json, null, num, arr, obj, Items, nil, cons, Fields, get_field, truthy,
}
use edufurther_agent_be.Settings.{Settings}
use edufurther_agent_be.Runtime.TaskState.{merge_notes}
use edufurther_agent_be.Tools.JinaClient.{shape_failure}
use edufurther_agent_be.Integrations.{text_of, get_value, read_items}
use edufurther_agent_be.Integrations.Product.{
  ProductHttp, ProductSettings, Client, Call, candidates_call, evidence_call, review_call, run_call,
  post_call, client_from_settings,
}
use edufurther_agent_be.Scholarship.Schemas.{
  AgentOutcome, review_required, more_evidence_required, outcome_value, Candidate, has_text,
  get_text, set_text, model,
}
use edufurther_agent_be.Scholarship.Payloads.{
  items_of, evidence_json, candidate_payload, recommendation, candidate_recommendation,
}
use edufurther_agent_be.Scholarship.Workflow.{State, add_note, add_uncertainty}

pub record Session : Type 0 where
  pub calls : List Call
  pub notes : List Text

abbrev pub Send : Type 0 → Type 0
Send A = Session → Result A × Session

abbrev pub continue : {A B : Type 0} → (A → Send B) → Result A × Session → Result B × Session
continue k (raise exc, s) = (raise exc, s)
continue k (ok a, s) = k a s

infixl 5 ◌>>=◌ ◌>>◌
abbrev pub ◌>>=◌ : {A B : Type 0} → Send A → (A → Send B) → Send B
◌>>=◌ m k s = continue k (m s)

abbrev pub ◌>>◌ : {A B : Type 0} → Send A → Send B → Send B
m >> n = m >>= λ _. n

abbrev pub pure : {A : Type 0} → A → Send A
pure a s = (ok a, s)

unfoldable pub tell : Text → Send Unit
tell note s = (ok tt, record s { notes = s.notes ++ note ∷ [] })

-- What `except ScholarshipFinderError` catches.
abbrev pub is_finder_error : ErrorKind → Bool
is_finder_error scholarship_finder_error = true
is_finder_error _ = false

-- `if candidate.outcome in REVIEW_ON`
abbrev pub asks_review : Option AgentOutcome → Bool
asks_review (some review_required) = true
asks_review _ = false

module _ (http : ProductHttp) (client : Client) (repr : Text → Text) (state : State) where
  -- What is made of an answer: the product's own error becomes a note, any other goes on.
  unfoldable pub catch_finder : (Text → Text) → Result Fields → Send (Option Fields)
  unfolding tell
  catch_finder describe (ok body) = pure (some body)
  catch_finder describe (raise exc) =
      if is_finder_error exc.kind
      then tell (describe exc.message) >> pure none
      else (λ s. (raise exc, s))

  -- One call of the client under its `try`.
  unfoldable pub attempt : Call → (Text → Text) → Send (Option Fields)
  unfolding catch_finder
  attempt call describe s =
      catch_finder describe (post_call http client s.calls call)
        (record s { calls = s.calls ++ call ∷ [] })

  abbrev pub is_pending : Candidate → Bool
  is_pending c = not (has_text c.discovery_id) && not (is_empty c.title)

  -- The loop that fills `by_title`; a later entry of a title wins.
  unfoldable pub titles_from : Items → List (Text × Text) → Result (List (Text × Text))
  titles_from nil found = ok found
  titles_from (cons (obj item) items) found =
      let id = get_value (lit "discovery_id") item in
      titles_from items (
        if truthy id
        then set_text (text_of http.show (get_value (lit "title") item)) (text_of http.show id)
            found
        else found)
  titles_from (cons _ items) found = raise shape_failure

  -- `result.get("results") or []`
  unfoldable pub by_title : Fields → Result (List (Text × Text))
  unfolding titles_from
  by_title result = elim (read_items (get_value (lit "results") result)) [
    | raise exc ↦ raise exc
    | ok items ↦ titles_from items []
  ]

  unfoldable pub identified : List (Text × Text) → Candidate → Candidate
  identified found c =
      if is_pending c then record c { discovery_id = get_text c.title found } else c

  unfoldable pub submitted_note : Fields → Text
  submitted_note result =
      lit "submitted "
      ++ text_of http.show (get_or (get_field (lit "created") result) (num 0))
      ++ lit " candidate(s), "
      ++ text_of http.show (get_or (get_field (lit "duplicates") result) (num 0))
      ++ lit " already present"

  -- What is made of the answer to `submit_candidates`.
  unfoldable pub take_ids : List Candidate → Option Fields → Send (List Candidate)
  unfolding tell
  take_ids candidates none = pure candidates
  take_ids candidates (some result) = elim (by_title result) [
    | raise exc ↦ (λ s. (raise exc, s))
    | ok found ↦ tell (submitted_note result) >> pure (map (identified found) candidates)
  ]

  unfoldable pub new_candidates_call : List Candidate → Call
  new_candidates_call pending =
      candidates_call state.discovery.discovery_id state.workflow_version
        (items_of candidate_payload pending)

  unfoldable pub submit_candidates : List Candidate → Send (List Candidate)
  unfolding attempt take_ids new_candidates_call
  submit_candidates candidates =
      let pending = keep is_pending candidates in
      if is_empty pending
      then pure candidates
      else attempt (new_candidates_call pending)
          (λ message. lit "candidate submission failed: " ++ message)
        >>= take_ids candidates

  unfoldable pub new_evidence_call : Candidate → Call
  new_evidence_call c =
      evidence_call (get_or c.discovery_id []) state.job_id state.workflow_version
        (get_text (lit "extract") c.prompt_versions) (model c) (items_of evidence_json c.evidence)

  unfoldable pub attach : Candidate → Send ℕ
  unfolding attempt new_evidence_call
  attach c =
      if is_empty c.evidence || not (has_text c.discovery_id)
      then pure 0
      else attempt (new_evidence_call c)
          (λ message. lit "evidence submission failed for " ++ repr c.title ++ lit ": " ++ message)
        >>= λ answer. pure (if is_some answer then length c.evidence else 0)

  unfoldable pub new_run_call : Text → Text → Json → Option Text → Option Text → Call
  new_run_call discovery_id outcome recommended answered_by prompt_version =
      run_call discovery_id state.workflow_version outcome recommended prompt_version answered_by
        state.correlation_id

  unfoldable pub record_run : Text → Text → Json → Option Text → Option Text → Send Unit
  unfolding attempt new_run_call
  record_run discovery_id outcome recommended answered_by prompt_version =
      attempt (new_run_call discovery_id outcome recommended answered_by prompt_version)
        (λ message. lit "run record failed for " ++ discovery_id ++ lit ": " ++ message)
      >> pure tt

  unfoldable pub record_candidate_run : Candidate → Send Unit
  unfolding record_run
  record_candidate_run c = elim c.outcome [
    | none ↦ pure tt
    | some outcome ↦
        (if has_text c.discovery_id
          then record_run (get_or c.discovery_id []) (outcome_value outcome)
              (candidate_recommendation c) (model c) (get_text (lit "extract") c.prompt_versions)
          else pure tt)
  ]

  unfoldable pub opened_note : Candidate → Option Fields → Send Unit
  unfolding tell
  opened_note c none = pure tt
  opened_note c (some result) =
      if truthy (get_value (lit "created") result)
      then tell (lit "opened a review task for " ++ repr c.title)
      else pure tt

  unfoldable pub new_review_call : Candidate → Call
  new_review_call c = review_call (get_or c.discovery_id []) (lit "agent_review_required") none

  unfoldable pub request_review : Candidate → Send Unit
  unfolding attempt opened_note new_review_call
  request_review c =
      if has_text c.discovery_id
      then attempt (new_review_call c)
          (λ message. lit "review request failed for " ++ repr c.title ++ lit ": " ++ message)
        >>= opened_note c
      else pure tt

  -- A review is asked for outside shadow mode, and only where the outcome says so.
  unfoldable pub review_if : Bool → Candidate → Send Unit
  unfolding request_review
  review_if shadow c = if not shadow && asks_review c.outcome then request_review c else pure tt

  -- A candidate that has a discovery, with the evidence that was submitted.
  unfoldable pub submit_known : Bool → Candidate → Send ℕ
  submit_known shadow c = do
    submitted ← attach c
    record_candidate_run c
    review_if shadow c
    pure submitted

  -- One turn of the loop.
  unfoldable pub submit_one : Bool → Candidate → Send ℕ
  submit_one shadow c = if has_text c.discovery_id then submit_known shadow c else pure 0

  unfoldable pub submit_each : Bool → List Candidate → Send ℕ
  submit_each shadow [] = pure 0
  submit_each shadow (c ∷ cs) =
      submit_one shadow c >>= λ n. submit_each shadow cs >>= λ m. pure (n + m)

  -- `str(state.get("outcome") or MORE_EVIDENCE_REQUIRED)`
  unfoldable pub job_outcome : Text
  job_outcome = outcome_value (get_or state.outcome more_evidence_required)

  unfoldable pub record_job_run : List Candidate → Send Unit
  unfolding record_run job_outcome
  record_job_run candidates =
      record_run state.discovery.discovery_id job_outcome (recommendation state candidates)
        state.page_model state.page_prompt_version

  -- What is left of the node once the client is there.
  unfoldable pub submit_run : Bool → List Candidate → Send (List Candidate)
  submit_run shadow candidates = do
    submit_each shadow candidates
    record_job_run candidates
    pure candidates

  unfoldable pub submit_all : Bool → Send (List Candidate)
  submit_all shadow =
      (if shadow then pure state.candidates else submit_candidates state.candidates)
      >>= submit_run shadow

-- The node's update merged into the state.
unfoldable pub submitted : State → Result (List Candidate) × Session → Result State × List Call
unfolding merge_notes
submitted state (raise exc, s) = (raise exc, s.calls)
submitted state (ok candidates, s) = (
  ok (record state {
    candidates = candidates;
    notes = merge_notes (some state.notes) (some s.notes);
  }),
  s.calls,
)

unfoldable pub submit_to_product :
    Settings → ProductSettings → ProductHttp → (Text → Text) → State → Result State × List Call
unfolding submitted add_note add_uncertainty
submit_to_product settings product http repr state = elim (client_from_settings product) [
  | raise exc ↦ (
    ok (
        add_uncertainty (lit "submission skipped: " ++ exc.message)
          (add_note (lit "product not configured; nothing submitted") state)),
    [],
  )
  | ok client ↦
      submitted state
        (submit_all http client repr state settings.shadow_mode (record { calls = []; notes = [] }))
]
