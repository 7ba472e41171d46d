-- ===== src/Scholarship/Payloads.antt =====
-- What src/app/usecases/scholarship_finder/schemas.py and submission.py make of a candidate for the
-- product: `to_dict` of evidence and of rules, and the bodies of `_recommendation` and its like.
use edufurther_agent_be.Base.{
  Bool, Option, none, some, List, [], ◌∷◌, Text, lit, length, is_empty, if◌then◌else◌,
}
use edufurther_agent_be.Json.{Json, null, bool, num, str, arr, obj, Items, nil, cons, end, field}
use edufurther_agent_be.Integrations.Product.{optional}
use edufurther_agent_be.Scholarship.Schemas.{
  Candidate, Evidence, EligibilityRule, ScaleType, gpa_4_0, gpa_5_0, percentage, uk_honours,
  letter_grade, qualitative, not_stated, unknown, SourceType, official_page, official_document,
  aggregator_source, marketplace, blog_list, search_result, Confidence, explicit, model_extracted,
  outcome_value, AgentOutcome,
}
use edufurther_agent_be.Scholarship.Workflow.{State}

unfoldable pub scale_value : ScaleType → Text
scale_value gpa_4_0 = lit "gpa_4_0"
scale_value gpa_5_0 = lit "gpa_5_0"
scale_value percentage = lit "percentage"
scale_value uk_honours = lit "uk_honours"
scale_value letter_grade = lit "letter_grade"
scale_value qualitative = lit "qualitative"
scale_value not_stated = lit "not_stated"
scale_value unknown = lit "unknown"

unfoldable pub source_type_value : SourceType → Text
source_type_value official_page = lit "official_page"
source_type_value official_document = lit "official_document"
source_type_value aggregator_source = lit "aggregator"
source_type_value marketplace = lit "marketplace"
source_type_value blog_list = lit "blog_list"
source_type_value search_result = lit "search_result"

unfoldable pub confidence_json : Option Confidence → Json
confidence_json none = null
confidence_json (some explicit) = str (lit "explicit")
confidence_json (some model_extracted) = str (lit "model_extracted")

-- A list of dictionaries, by what makes one of an element.
abbrev pub items_of : {A : Type 0} → (A → Json) → List A → Items
items_of f [] = nil
items_of f (x ∷ xs) = cons (f x) (items_of f xs)

abbrev pub optional_bool : Option Bool → Json
optional_bool none = null
optional_bool (some b) = bool b

abbrev pub optional_value : Option Json → Json
optional_value none = null
optional_value (some value) = value

unfoldable pub evidence_json : Evidence → Json
unfolding source_type_value confidence_json
evidence_json e = obj (
    field (lit "claim_path") (str e.claim_path) (
      field (lit "value") (str e.value) (
        field (lit "source_url") (str e.source_url) (
          field (lit "source_type") (str (source_type_value e.source_type)) (
            field (lit "observed_at") (str e.observed_at) (
              field (lit "excerpt") (optional e.excerpt) (
                field (lit "fetch_method") (optional e.fetch_method)
                  (field (lit "confidence") (confidence_json e.confidence) end))))))))

abbrev same_value : Json → Json
same_value value = value

unfoldable pub rule_json : EligibilityRule → Json
unfolding scale_value
rule_json r =
    let scope =
      field (lit "programmes") (arr (items_of same_value r.programmes))
        (field (lit "countries") (arr (items_of same_value r.countries)) end) in
    obj (
      field (lit "requirement_type") (str r.requirement_type) (
        field (lit "raw_value") (str r.raw_value) (
          field (lit "source_wording") (str r.source_wording) (
            field (lit "scale_type") (str (scale_value r.scale_type)) (
              field (lit "scale_max") (optional_value r.scale_max) (
                field (lit "measurement_basis") (str r.measurement_basis) (
                  field (lit "scope") (obj scope) (
                    field (lit "evidence_url") (optional r.evidence_url) (
                      field (lit "evidence_excerpt") (optional r.evidence_excerpt) (
                        field (lit "equivalency_status") (str r.equivalency_status)
                          (field (lit "verified_at") (optional r.verified_at) end)))))))))))

abbrev pub optional_outcome : Option AgentOutcome → Json
optional_outcome none = null
optional_outcome (some o) = str (outcome_value o)

-- An element of `candidates` in `_recommendation`.
unfoldable pub summary_json : Candidate → Json
summary_json c = obj (
    field (lit "title") (str c.title) (
      field (lit "url") (optional c.url) (
        field (lit "identity_key") (str c.identity_key) (
          field (lit "outcome") (optional_outcome c.outcome) (
            field (lit "official_url") (optional c.official_url) (
              field (lit "official_page_fetched") (bool c.official_page_fetched) (
                field (lit "amount_agrees") (optional_bool c.amount_agrees) (
                  field (lit "deadline_agrees") (optional_bool c.deadline_agrees) (
                    field (lit "eligibility_rule_count") (num (length c.eligibility_rules)) (
                      field (lit "uncertainty_reasons") (arr (items_of str c.uncertainty_reasons))
                        end))))))))))

unfoldable pub recommendation : State → List Candidate → Json
unfolding summary_json
recommendation state candidates = obj (
    field (lit "workflow_version") (str state.workflow_version) (
      field (lit "page_type") (if is_empty state.page_type then null else str state.page_type) (
        field (lit "page_fetch_method") (optional state.page_fetch_method) (
          field (lit "candidate_count") (num (length candidates)) (
            field (lit "uncertainty_reasons") (arr (items_of str state.uncertainty_reasons))
              (field (lit "candidates") (arr (items_of summary_json candidates)) end))))))

-- The recommendation of one candidate's own run.
unfoldable pub candidate_recommendation : Candidate → Json
unfolding rule_json
candidate_recommendation c = obj (
    field (lit "title") (str c.title) (
      field (lit "official_url") (optional c.official_url) (
        field (lit "amount_agrees") (optional_bool c.amount_agrees) (
          field (lit "deadline_agrees") (optional_bool c.deadline_agrees) (
            field (lit "eligibility_rules") (arr (items_of rule_json c.eligibility_rules)) (
              field (lit "uncertainty_reasons") (arr (items_of str c.uncertainty_reasons)) end))))))

-- What is sent of a candidate that is to become a discovery.
unfoldable pub candidate_payload : Candidate → Json
candidate_payload c = obj (
    field (lit "title") (str c.title) (
      field (lit "url") (optional c.url) (
        field (lit "excerpt") (optional c.excerpt)
          (field (lit "heading") (optional c.heading) end))))
