-- ===== src/Scholarship/Tests/Nodes.antt =====
-- The theorems of the nodes that ask the model router, at concrete inputs.
use edufurther_agent_be.Base.{
  ◌≤◌, ◌≡◌, refl, ◌⊎◌, true, none, some, [], ◌∷◌, Text, lit, length, contains_text, text_eq, All,
}
use edufurther_agent_be.Errors.{PyError, ok, raise}
use edufurther_agent_be.Json.{Json, str, arr, obj, nil, cons, Fields, end, field, get_field}
use edufurther_agent_be.Integrations.{text_of, get_value, read_items}
use edufurther_agent_be.Integrations.Router.{completed, RouterResponse, usable_output}
use edufurther_agent_be.Scholarship.Schemas.{individual, list, page_type_value}
use edufurther_agent_be.Scholarship.Workflow.{State}
use edufurther_agent_be.Scholarship.Asking.{Router, ask}
use edufurther_agent_be.Scholarship.Loading.{page_types, classify_page}
use edufurther_agent_be.Scholarship.Loading.Classes.{class_answer, classify_page_known}
use edufurther_agent_be.Scholarship.Splitting.{
  max_candidates_per_page, split_candidates, split_items,
}
use edufurther_agent_be.Scholarship.Splitting.Candidates.{IsNew, split_candidates-IsNew}
use edufurther_agent_be.Scholarship.Reading.{extract_facts, join_turn}
use edufurther_agent_be.Scholarship.Reading.Provenance.{
  Indexed, Described, facts_answer, extract_facts-Described, extract_facts_raises,
}
use edufurther_agent_be.Scholarship.Evidence.{compare_evidence}
use edufurther_agent_be.Scholarship.Evidence.Resumed.{compare_evidence_resumed}
use edufurther_agent_be.Scholarship.Tests.Decisions.{state, unlinked, with_link}
use edufurther_agent_be.Scholarship.Tests.{candidate}
use edufurther_agent_be.Scholarship.Tests.Graph.{unicode}
use edufurther_agent_be.Scholarship.Tests.Submission.{timeout, repr}

abbrev show : Json → Text
show value = []

-- An answer with a page type, a candidate and its facts.
abbrev output : Fields
output = field (lit "page_type") (str (page_type_value list)) (
    field (lit "candidates")
      (arr (cons (obj (field (lit "title") (str (lit "1. Zeta Award")) end)) nil))
      (field (lit "candidate") (obj (field (lit "amount") (str (lit "$5")) end)) end))

abbrev response : RouterResponse
response = record {
  request_id = [];
  outcome = completed;
  output = some output;
  model_policy_version = none;
  prompt_version = some (b'p' ∷ []);
  model = some (b'm' ∷ []);
  trace_reference = none;
}

abbrev router : Router
router request = ok response

abbrev down : Router
down request = raise timeout

classified : (s : State) × (classify_page show repr (ok router) state ≡ ok s)
unfolding classify_page ask
classified = (_, refl)

classify_page_known_example :
    (contains_text classified.0.page_type (page_types show) ≡ true)
    × ((classified.0.page_type ≡ page_type_value individual)
        ⊎ ((response : RouterResponse) × (output : Fields) × (class_answer router state
              ≡ ok response)
            × (usable_output response ≡ some output)
            × (classified.0.page_type ≡ text_of show (get_value (lit "page_type") output))))
classify_page_known_example = classify_page_known show repr router state classified.0 classified.1

split : (s : State) × (split_candidates show unicode (ok router) state ≡ ok s)
unfolding split_candidates usable_output split_items read_items get_value get_field text_eq lit ask
    max_candidates_per_page
split = (_, refl)

split_candidates-IsNew_example :
    (length split.0.candidates ≤ 50) × All (IsNew show unicode state) split.0.candidates
split_candidates-IsNew_example = split_candidates-IsNew show unicode router state split.0 split.1

extracted : (s : State) × (extract_facts (ok router) state ≡ ok s)
unfolding extract_facts usable_output join_turn ask
extracted = (_, refl)

extract_facts-Described_example :
    Indexed
      (λ index c c'. Described (facts_answer router state index c) c c')
      0
      state.candidates
      extracted.0.candidates
extract_facts-Described_example = extract_facts-Described router state extracted.0 extracted.1

extract_facts_raises_example : (exc : PyError) × (extract_facts (ok down) state ≡ raise exc)
unfolding ask
extract_facts_raises_example =
    extract_facts_raises down state (unlinked ∷ []) (with_link ∷ []) candidate timeout refl refl
      refl

compare_evidence_resumed_example : compare_evidence show [] (ok router) state [] ≡ (ok state, [])
compare_evidence_resumed_example = compare_evidence_resumed show [] router state
