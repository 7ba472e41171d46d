-- ===== src/Scholarship/Evidence.antt =====
-- `compare_evidence` of src/app/usecases/scholarship_finder/nodes.py. The texts of the official pages
-- are taken out as they are read.
pub mod Resumed
use edufurther_agent_be.Base.{
  ℕ, ◌+◌, Bool, not, ◌||◌, Option, none, some, List, [], ◌∷◌, ◌++◌, Text, lit, text_eq, is_empty,
  show_nat, get_or, if◌then◌else◌,
}
use edufurther_agent_be.Errors.{PyError, Result, ok, raise}
use edufurther_agent_be.Json.{Json, arr, Items, nil, cons, Fields, truthy}
use edufurther_agent_be.Tools.JinaClient.{shape_failure}
use edufurther_agent_be.Integrations.{text_of, get_value, read_items}
use edufurther_agent_be.Integrations.Router.{
  compare_official_evidence, RouterResponse, usable_output,
}
use edufurther_agent_be.Scholarship.Schemas.{Candidate, get_text}
use edufurther_agent_be.Scholarship.Extraction.{extract_candidate_facts}
use edufurther_agent_be.Scholarship.Prompts.{compare_source_data}
use edufurther_agent_be.Scholarship.Sources.{add_reason}
use edufurther_agent_be.Scholarship.Compare.{
  Claim, Pairs, model_value_pairs, funding_claim, deadline_claim, settle_agreement,
}
use edufurther_agent_be.Scholarship.OfficialPages.{Texts}
use edufurther_agent_be.Scholarship.Workflow.{State}
use edufurther_agent_be.Scholarship.Asking.{Router, ask, is_router_error, note_provenance}

-- What `pop` leaves.
unfoldable pub without_key : Text → Texts → Texts
without_key key [] = []
without_key key ((k, v) ∷ texts) =
    let rest = without_key key texts in if text_eq k key then rest else (k, v) ∷ rest

module _ (show : Json → Text) (now : Text) where
  abbrev strings_of : Items → List Text
  strings_of nil = []
  strings_of (cons value items) = text_of show value ∷ strings_of items

  -- `[str(item) for item in output.get("contradictions") or []]`
  unfoldable pub read_contradictions : Fields → Result (List Text)
  read_contradictions output = elim (read_items (get_value (lit "contradictions") output)) [
    | raise exc ↦ raise exc
    | ok items ↦ ok (strings_of items)
  ]

  -- The candidate settled with what the model located.
  unfoldable pub settle_with : Text → Candidate → Pairs → Candidate
  settle_with official_text c pairs =
      let official = extract_candidate_facts c.title (some official_text) in
      settle_agreement now c (funding_claim c.deterministic_facts official)
        (deadline_claim c.deterministic_facts official) pairs

  unfoldable pub take_comparison : Text → Candidate → Result RouterResponse → Result Candidate
  unfolding read_contradictions settle_with add_reason note_provenance
  take_comparison official_text c (raise exc) =
      if is_router_error exc.kind
      then ok (
          settle_with official_text
            (add_reason (lit "evidence comparison failed: " ++ exc.message) c) [])
      else raise exc
  take_comparison official_text c (ok response) = elim (usable_output response) [
    | none ↦ ok (settle_with official_text c [])
    | some output ↦ elim (read_contradictions output) [
      | raise exc ↦ raise exc
      | ok contradictions ↦ ok (
          settle_with official_text
            (note_provenance (lit "compare") response
              (record c { contradictions = contradictions }))
            (model_value_pairs output))
    ]
  ]

  -- One turn of the loop, once the text is taken out.
  unfoldable pub compare_one : Router → State → ℕ → Text → Candidate → Result Candidate
  unfolding take_comparison
  compare_one router s index official_text c =
      if not c.official_page_fetched || is_empty official_text
      then ok c
      else take_comparison official_text c (
          ask router compare_official_evidence s (lit "compare:" ++ show_nat index) (
            compare_source_data c.title c.deterministic_facts (get_or c.official_url [])
              official_text))

  -- A turn's candidate in front of the later ones, with the texts that are left.
  unfoldable pub join_compared :
      Result Candidate → Texts → Result (List Candidate) × Texts → Result (List Candidate) × Texts
  join_compared (raise exc) left rest = (raise exc, left)
  join_compared (ok first) left (raise exc, final) = (raise exc, final)
  join_compared (ok first) left (ok others, final) = (ok (first ∷ others), final)

  unfoldable pub compare_from :
      Router → State → ℕ → List Candidate → Texts → Result (List Candidate) × Texts
  unfolding without_key
  compare_from router s index [] texts = (ok [], texts)
  compare_from router s index (c ∷ cs) texts =
      let left = without_key c.identity_key texts in
      join_compared (compare_one router s index (get_or (get_text c.identity_key texts) []) c) left
        (compare_from router s (index + 1) cs left)

  unfoldable pub compared : State → Result (List Candidate) × Texts → Result State × Texts
  compared s (raise exc, texts) = (raise exc, texts)
  compared s (ok candidates, texts) = (ok (record s { candidates = candidates }), texts)

  unfoldable pub compare_evidence : Result Router → State → Texts → Result State × Texts
  unfolding compare_from compared
  compare_evidence (raise exc) s texts = (raise exc, texts)
  compare_evidence (ok router) s texts = compared s (compare_from router s 0 s.candidates texts)
