-- ===== src/Scholarship/Reading.antt =====
-- `extract_facts` and `extract_eligibility` of src/app/usecases/scholarship_finder/nodes.py: the loops
-- over the candidates, each with its own model call.
pub mod Provenance
use edufurther_agent_be.Base.{
  ℕ, ◌+◌, Bool, true, false, not, ◌&&◌, Option, none, some, List, [], ◌∷◌, ◌++◌, Text, lit, text_eq,
  is_empty, show_nat, get_or, if◌then◌else◌,
}
use edufurther_agent_be.Errors.{PyError, Result, ok, raise}
use edufurther_agent_be.Json.{
  Json, null, bool, num, str, arr, obj, Items, nil, cons, Fields, end, get_field, truthy,
}
use edufurther_agent_be.Tools.JinaClient.{shape_failure}
use edufurther_agent_be.Integrations.{text_of, get_value, or_value, read_items}
use edufurther_agent_be.Integrations.Router.{
  AiTask, extract_scholarship_facts, extract_eligibility_requirements, RouterResponse,
  usable_output, router_outcome_value, object_field,
}
use edufurther_agent_be.Scholarship.Schemas.{
  Candidate, EligibilityRule, ScaleType, gpa_4_0, gpa_5_0, percentage, uk_honours, letter_grade,
  qualitative, not_stated, unknown, has_text,
}
use edufurther_agent_be.Scholarship.Extraction.{extract_candidate_facts}
use edufurther_agent_be.Scholarship.Payloads.{scale_value}
use edufurther_agent_be.Scholarship.Prompts.{extract_source_data, eligibility_source_data}
use edufurther_agent_be.Scholarship.Sources.{add_reason}
use edufurther_agent_be.Scholarship.Workflow.{State}
use edufurther_agent_be.Scholarship.Asking.{Router, ask, is_router_error, note_provenance}

-- A turn's candidate in front of those of the later turns; the first exception counts.
unfoldable pub join_turn : Result Candidate → Result (List Candidate) → Result (List Candidate)
join_turn (raise exc) rest = raise exc
join_turn (ok first) (raise exc) = raise exc
join_turn (ok first) (ok others) = ok (first ∷ others)

-- A turn of a loop for the candidate at an index.
unfoldable pub each_from :
    (ℕ → Candidate → Result Candidate) → ℕ → List Candidate → Result (List Candidate)
each_from turn index [] = ok []
each_from turn index (c ∷ cs) = join_turn (turn index c) (each_from turn (index + 1) cs)

unfoldable pub with_candidates : State → Result (List Candidate) → Result State
with_candidates s (raise exc) = raise exc
with_candidates s (ok candidates) = ok (record s { candidates = candidates })

-- The candidate with the facts that are read off its title and its excerpt.
unfoldable pub with_read_facts : Candidate → Candidate
with_read_facts c = record c { deterministic_facts = extract_candidate_facts c.title c.excerpt }

-- What is made of the router's answer on the facts.
unfoldable pub take_facts : Candidate → Result RouterResponse → Result Candidate
unfolding add_reason note_provenance object_field
take_facts c (raise exc) =
    if is_router_error exc.kind
    then ok (add_reason (lit "fact extraction failed: " ++ exc.message) c)
    else raise exc
take_facts c (ok response) = elim (usable_output response) [
  | none ↦ ok (
      add_reason
        (lit "fact extraction unavailable (" ++ router_outcome_value response.outcome ++ lit ")") c)
  | some output ↦ ok (
      note_provenance (lit "extract") response
        (record c { model_facts = get_or (object_field (lit "candidate") output) end }))
]

unfoldable pub extract_one : Router → State → ℕ → Candidate → Result Candidate
unfolding take_facts with_read_facts
extract_one router s index c = take_facts (with_read_facts c) (
    ask router extract_scholarship_facts s (lit "extract:" ++ show_nat index)
      (extract_source_data c.title c.excerpt none))

unfoldable pub extract_facts : Result Router → State → Result State
unfolding each_from extract_one with_candidates
extract_facts (raise exc) s = raise exc
extract_facts (ok router) s = with_candidates s (each_from (extract_one router s) 0 s.candidates)

-- The scale of that value, or the unknown one.
unfoldable pub read_scale : Text → ScaleType
unfolding scale_value
read_scale value =
    if text_eq value (scale_value gpa_4_0)
    then gpa_4_0
    else if text_eq value (scale_value gpa_5_0)
    then gpa_5_0
    else if text_eq value (scale_value percentage)
    then percentage
    else if text_eq value (scale_value uk_honours)
    then uk_honours
    else if text_eq value (scale_value letter_grade)
    then letter_grade
    else if text_eq value (scale_value qualitative)
    then qualitative
    else if text_eq value (scale_value not_stated)
    then not_stated
    else unknown

-- `value if isinstance(value, int | float) else None`
unfoldable pub number_or_none : Json → Option Json
number_or_none (num n) = some (num n)
number_or_none (bool b) = some (bool b)
number_or_none _ = none

abbrev list_of : Items → List Json
list_of nil = []
list_of (cons value items) = value ∷ list_of items

-- `list(scope.get(key) or [])`
unfoldable pub scope_list : Text → Json → List Json
scope_list key (obj scope) = elim (get_value key scope) [ arr items ↦ list_of items | _ ↦ [] ]
scope_list key _ = []

-- `candidate.official_url or candidate.parent_source_url`
unfoldable pub evidence_page : Candidate → Text
evidence_page c = if has_text c.official_url then get_or c.official_url [] else c.parent_source_url

module _ (show : Json → Text) (now : Text) where
  -- `str(item.get(key) or default)`
  unfoldable pub field_or : Text → Text → Fields → Text
  field_or key default item = text_of show (or_value (get_value key item) (str default))

  unfoldable pub rule : Fields → Candidate → EligibilityRule
  unfolding field_or read_scale number_or_none scope_list evidence_page
  rule item c =
      let wording = field_or (lit "source_wording") [] item in
      record {
        requirement_type = field_or (lit "requirement_type") (lit "unknown") item;
        raw_value = field_or (lit "raw_value") [] item;
        source_wording = wording;
        scale_type = read_scale (field_or (lit "scale_type") (scale_value unknown) item);
        scale_max = number_or_none (get_value (lit "scale_max") item);
        measurement_basis = field_or (lit "measurement_basis") (lit "unknown") item;
        programmes = scope_list (lit "programmes") (get_value (lit "scope") item);
        countries = scope_list (lit "countries") (get_value (lit "scope") item);
        evidence_url = some (evidence_page c);
        evidence_excerpt = if is_empty wording then none else some wording;
        equivalency_status = lit "not_converted";
        verified_at = some now;
      }

  unfoldable pub rules_of : Items → Candidate → Result (List EligibilityRule)
  unfolding rule
  rules_of nil c = ok []
  rules_of (cons (obj item) items) c = elim (rules_of items c) [
    | raise exc ↦ raise exc
    | ok rest ↦ ok (rule item c ∷ rest)
  ]
  rules_of (cons _ items) c = raise shape_failure

  -- `response.output.get("rules") or []`
  unfoldable pub read_rules : Fields → Candidate → Result (List EligibilityRule)
  unfolding rules_of
  read_rules output c = elim (read_items (get_value (lit "rules") output)) [
    | raise exc ↦ raise exc
    | ok items ↦ rules_of items c
  ]

  unfoldable pub take_rules : Candidate → Result RouterResponse → Result Candidate
  unfolding read_rules add_reason note_provenance
  take_rules c (raise exc) =
      if is_router_error exc.kind
      then ok (add_reason (lit "eligibility extraction failed: " ++ exc.message) c)
      else raise exc
  take_rules c (ok response) = elim (usable_output response) [
    | none ↦ ok (
        add_reason
          (lit "eligibility extraction unavailable ("
            ++ router_outcome_value response.outcome
            ++ lit ")")
          c)
    | some output ↦ elim (read_rules output c) [
      | raise exc ↦ raise exc
      | ok rules ↦
          ok (note_provenance (lit "eligibility") response (record c { eligibility_rules = rules }))
    ]
  ]

  unfoldable pub eligibility_one : Router → State → ℕ → Candidate → Result Candidate
  unfolding take_rules evidence_page
  eligibility_one router s index c =
      let source_text = get_or c.excerpt [] in
      if not c.official_page_fetched && is_empty source_text
      then ok c
      else take_rules c (
          ask router extract_eligibility_requirements s (lit "eligibility:" ++ show_nat index)
            (eligibility_source_data c.title (evidence_page c) source_text))

  unfoldable pub extract_eligibility : Result Router → State → Result State
  unfolding each_from eligibility_one with_candidates
  extract_eligibility (raise exc) s = raise exc
  extract_eligibility (ok router) s =
      with_candidates s (each_from (eligibility_one router s) 0 s.candidates)
