-- ===== src/Scholarship/Schemas.antt =====
-- src/app/usecases/scholarship_finder/schemas.py: what the workflow's nodes hand on. A `StrEnum` is a
-- data type with its `value` beside it where a text is compared with it.
use edufurther_agent_be.Base.{
  Bool, false, not, Option, none, some, List, [], ◌∷◌, Text, lit, text_eq, is_empty, if◌then◌else◌,
}
use edufurther_agent_be.Json.{Json, Fields}

pub data PageType : Type 0 where
  individual list aggregator not_a_scholarship : PageType

pub data AgentOutcome : Type 0 where
  review_required more_evidence_required auto_check_eligible reject_recommended : AgentOutcome

pub data SourceType : Type 0 where
  official_page official_document aggregator_source marketplace blog_list search_result : SourceType

pub data ScaleType : Type 0 where
  gpa_4_0 gpa_5_0 percentage uk_honours letter_grade qualitative not_stated unknown : ScaleType

unfoldable pub page_type_value : PageType → Text
page_type_value individual = lit "individual"
page_type_value list = lit "list"
page_type_value aggregator = lit "aggregator"
page_type_value not_a_scholarship = lit "not_a_scholarship"

unfoldable pub outcome_value : AgentOutcome → Text
outcome_value review_required = lit "REVIEW_REQUIRED"
outcome_value more_evidence_required = lit "MORE_EVIDENCE_REQUIRED"
outcome_value auto_check_eligible = lit "AUTO_CHECK_ELIGIBLE"
outcome_value reject_recommended = lit "REJECT_RECOMMENDED"

-- How a located value came about: read off the page, or located by the model.
pub data Confidence : Type 0 where
  explicit model_extracted : Confidence

pub record EligibilityRule : Type 0 where
  pub requirement_type : Text
  pub raw_value : Text
  pub source_wording : Text
  pub scale_type : ScaleType
  pub scale_max : Option Json
  pub measurement_basis : Text
  pub programmes : List Json
  pub countries : List Json
  pub evidence_url : Option Text
  pub evidence_excerpt : Option Text
  pub equivalency_status : Text
  pub verified_at : Option Text

pub record Evidence : Type 0 where
  pub claim_path : Text
  pub value : Text
  pub source_url : Text
  pub source_type : SourceType
  pub observed_at : Text
  pub excerpt : Option Text
  pub fetch_method : Option Text
  pub confidence : Option Confidence

-- `deterministic_facts`, without its version and its constant flag.
pub record Facts : Type 0 where
  pub funding_mentions : List Text
  pub deadline_mentions : List Text
  pub level_mentions : List Text
  pub eligibility_phrase : Option Text

pub record Candidate : Type 0 where
  pub title : Text
  pub identity_key : Text
  pub parent_source_url : Text
  pub parent_discovery_id : Text
  pub url : Option Text
  pub excerpt : Option Text
  pub heading : Option Text
  pub discovery_id : Option Text
  pub deterministic_facts : Facts
  pub model_facts : Fields
  pub official_url : Option Text
  pub official_page_fetched : Bool
  pub official_fetch_method : Option Text
  pub amount_agrees : Option Bool
  pub deadline_agrees : Option Bool
  pub contradictions : List Text
  pub eligibility_rules : List EligibilityRule
  pub evidence : List Evidence
  pub outcome : Option AgentOutcome
  pub uncertainty_reasons : List Text
  pub prompt_versions : List (Text × Text)
  pub models : List (Text × Text)

-- The truth of an optional text: `None` and the empty text are false.
abbrev pub has_text : Option Text → Bool
has_text none = false
has_text (some s) = not (is_empty s)

-- `d.get(key)` of a dictionary of texts
unfoldable pub get_text : Text → List (Text × Text) → Option Text
get_text key [] = none
get_text key ((k, v) ∷ d) = if text_eq k key then some v else get_text key d

-- `d[key] = value`
unfoldable pub set_text : Text → Text → List (Text × Text) → List (Text × Text)
set_text key value [] = (key, value) ∷ []
set_text key value ((k, v) ∷ d) =
    if text_eq k key then (k, value) ∷ d else (k, v) ∷ set_text key value d

-- The first task in order that has a model.
unfoldable pub first_model : List Text → List (Text × Text) → Option Text
unfolding get_text
first_model [] models = none
first_model (task ∷ tasks) models =
    let rest = first_model tasks models in
    if has_text (get_text task models) then get_text task models else rest

-- `Candidate.model`
unfoldable pub model : Candidate → Option Text
unfolding first_model
model candidate =
    first_model
      (lit "extract" ∷ lit "compare" ∷ lit "eligibility" ∷ lit "split" ∷ lit "classify" ∷ [])
      candidate.models
