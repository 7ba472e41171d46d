-- ===== src/Scholarship/Workflow.antt =====
-- Nodes and routes of src/app/usecases/scholarship_finder/nodes.py and graph.py: the source page that
-- comes in, the removal of duplicates, and the decision. The state is the part of `ScholarshipState`
-- that these read and write; a node's update is merged into it by the reducer of notes. The key
-- `source_url` is that of the discovery.
pub mod Duplicates
pub mod Decision
use edufurther_agent_be.Base.{
  ℕ, zero, suc, ◌+◌, Bool, true, false, not, ◌&&◌, Option, none, some, List, [], ◌∷◌, ◌++◌, map,
  Text, lit, text_eq, strip, is_empty, length, find_first, show_nat, leb, ltb, ◌==◌, is_none,
  is_some, if◌then◌else◌,
}
use edufurther_agent_be.Runtime.TaskState.{merge_notes}
use edufurther_agent_be.Scholarship.Sources.{Discovery}
use edufurther_agent_be.Tools.Retrieval.{
  RetrievedPage, FetchMethod, direct_method, jina_method, min_usable_body_chars, body_chars,
}
use edufurther_agent_be.Scholarship.Schemas.{
  AgentOutcome, more_evidence_required, outcome_value, Candidate, page_type_value,
  not_a_scholarship, list,
}
use edufurther_agent_be.Scholarship.Policies.{
  decide_outcome, outcome_for_page_type, roll_up, is_false,
}

pub record State : Type 0 where
  pub job_id : Text
  pub correlation_id : Text
  pub workflow_version : Text
  pub input_reference : Text
  pub discovery : Discovery
  pub approved_domains : List Text
  pub page_text : Text
  pub page_fetch_method : Option Text
  pub page_model : Option Text
  pub page_prompt_version : Option Text
  pub page_usable : Option Bool
  pub page_type : Text  -- `state.get("page_type", "")`
  pub candidates : List Candidate
  pub outcome : Option AgentOutcome
  pub notes : List Text
  pub uncertainty_reasons : List Text

unfoldable pub add_note : Text → State → State
unfolding merge_notes
add_note note s = record s { notes = merge_notes (some s.notes) (some (note ∷ [])) }

unfoldable pub add_uncertainty : Text → State → State
unfolding merge_notes
add_uncertainty reason s = record s {
  uncertainty_reasons = merge_notes (some s.uncertainty_reasons) (some (reason ∷ []));
}

unfoldable pub is_usable_page : RetrievedPage → Bool
is_usable_page page = (page.status_code == 200) && leb min_usable_body_chars (body_chars page)

unfoldable pub method_value : FetchMethod → Text
method_value direct_method = lit "direct"
method_value jina_method = lit "jina"

-- What `fetch_source` makes of the page that it got.
unfoldable pub receive_page : RetrievedPage → State → State
unfolding is_usable_page add_note
receive_page page s =
    let usable = is_usable_page page in
    let note =
      lit "fetched source via "
      ++ method_value page.fetch_method
      ++ lit " ("
      ++ show_nat page.byte_length
      ++ lit " bytes)" in
    add_note (if usable then note else note ++ lit " - not a usable page") (record s {
      page_text = page.text;
      page_fetch_method = some (method_value page.fetch_method);
      page_usable = some usable;
    })

-- The nodes that a route leads to.
pub data Node : Type 0 where
  to_classify_page to_split_candidates to_single_candidate to_decide : Node

unfoldable pub route_after_fetch : State → Node
route_after_fetch s = if is_false s.page_usable then to_decide else to_classify_page

unfoldable pub route_after_classification : State → Node
route_after_classification s =
    if text_eq s.page_type (page_type_value not_a_scholarship)
    then to_decide
    else if text_eq s.page_type (page_type_value list)
    then to_split_candidates
    else to_single_candidate

abbrev pub has_identity : Text → Candidate → Bool
has_identity key c = text_eq c.identity_key key

-- `seen.get(key)`: each candidate stands under its own key.
unfoldable pub find_identity : Text → List Candidate → Option Candidate
find_identity key = find_first (has_identity key)

-- `seen[key] = candidate`, where the key is there
unfoldable pub replace_identity : Candidate → List Candidate → List Candidate
replace_identity c [] = []
replace_identity c (d ∷ ds) =
    if has_identity c.identity_key d then c ∷ ds else d ∷ replace_identity c ds

-- One turn of the loop.
unfoldable pub see : Candidate → List Candidate × ℕ → List Candidate × ℕ
unfolding find_identity replace_identity
see c (seen, duplicates) = elim (find_identity c.identity_key seen) [
  | none ↦ (seen ++ c ∷ [], duplicates)
  | some existing ↦ (
    if is_none existing.url && is_some c.url then replace_identity c seen else seen,
    duplicates + 1,
  )
]

unfoldable pub see_all : List Candidate → List Candidate × ℕ → List Candidate × ℕ
unfolding see
see_all [] t = t
see_all (c ∷ cs) t = see_all cs (see c t)

unfoldable pub dedupe_candidates : State → State
unfolding see_all add_note
dedupe_candidates s =
    let (seen, duplicates) = see_all s.candidates ([], 0) in
    let kept = record s { candidates = seen } in
    if duplicates == 0
    then kept
    else add_note (lit "deduplicated " ++ show_nat duplicates ++ lit " candidate(s)") kept

-- The outcome of a candidate with the reasons for it.
unfoldable pub settle_outcome : AgentOutcome → List Text → Candidate → Candidate
settle_outcome o reasons c = record c {
  outcome = some o;
  uncertainty_reasons = c.uncertainty_reasons ++ reasons;
}

-- The last branch of `decide`: each candidate by its own evidence, and the job over all of them.
unfoldable pub decide_each : State → State
unfolding settle_outcome add_note
decide_each s =
    let candidates =
      map (λ c. settle_outcome (decide_outcome c).0 (decide_outcome c).1 c) s.candidates in
    let overall = if is_empty candidates then more_evidence_required else roll_up candidates in
    add_note
      (lit "outcome "
        ++ outcome_value overall
        ++ lit " over "
        ++ show_nat (length candidates)
        ++ lit " candidate(s)")
      (record s { candidates = candidates; outcome = some overall })

-- A branch that gives every candidate and the job one outcome.
unfoldable pub decide_all : AgentOutcome → Text → Text → State → State
unfolding settle_outcome add_note
decide_all o reason why s =
    add_note (lit "outcome " ++ outcome_value o ++ lit " (" ++ why ++ lit ")") (record s {
      candidates = map (settle_outcome o (reason ∷ [])) s.candidates;
      outcome = some o;
    })

unfoldable pub decide : State → State
unfolding decide_each decide_all
decide s =
    if is_false s.page_usable
    then decide_all more_evidence_required (lit "source page could not be retrieved")
        (lit "source page could not be retrieved") s
    else elim (outcome_for_page_type s.page_type) [
      | some o ↦ decide_all o (lit "page describes no funding opportunity") (lit "page type") s
      | none ↦ decide_each s
    ]
