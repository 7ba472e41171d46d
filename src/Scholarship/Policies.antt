-- ===== src/Scholarship/Policies.antt =====
-- src/app/usecases/scholarship_finder/policies.py: the outcome of a candidate, with its reasons, and
-- the outcome of a job.
pub mod Verdicts
pub mod RollUp
use edufurther_agent_be.Base.{
  ℕ, Bool, true, false, not, ◌&&◌, ◌||◌, Option, none, some, List, [], ◌∷◌, ◌++◌, map, Text, lit,
  text_eq, contains_text, split_on, is_empty, keep, any, is_none, if◌then◌else◌,
}
use edufurther_agent_be.Scholarship.Schemas.{
  AgentOutcome, review_required, more_evidence_required, auto_check_eligible, reject_recommended,
  Candidate, Evidence, page_type_value, not_a_scholarship, has_text,
}

unfoldable pub required_claims : List Text
required_claims = lit "funding" ∷ lit "deadline" ∷ []

-- `value is False`, and the truth of a value that may be `None`
abbrev pub is_false : Option Bool → Bool
is_false (some false) = true
is_false _ = false

abbrev pub is_true : Option Bool → Bool
is_true (some true) = true
is_true _ = false

-- `claim_path.split(".")[0]`
unfoldable pub claim_root : Evidence → Text
claim_root item = elim (split_on b'.' item.claim_path) [ [] ↦ [] | root ∷ rest ↦ root ]

unfoldable pub missing_claims : Candidate → List Text
missing_claims candidate =
    let covered = map claim_root candidate.evidence in
    keep (λ claim. not (contains_text claim covered)) required_claims

-- The first branch: a fetched official page that states another figure.
unfoldable pub is_contradicted : Candidate → Bool
is_contradicted c =
    c.official_page_fetched && (is_false c.amount_agrees || is_false c.deadline_agrees)

abbrev when : Bool → Text → List Text
when b reason = if b then reason ∷ [] else []

unfoldable pub flagged : Candidate → List Text
flagged c = map (λ item. lit "model flagged: " ++ item) c.contradictions

-- The third branch: both figures are corroborated.
unfoldable pub decide_corroborated : Candidate → AgentOutcome × List Text
unfolding flagged
decide_corroborated c =
    if not (is_empty c.contradictions)
    then (review_required, flagged c)
    else if is_empty c.eligibility_rules
    then (review_required, lit "no eligibility requirements extracted" ∷ [])
    else (auto_check_eligible, lit "official page corroborates funding and deadline" ∷ [])

-- The last branch: formed, but needing judgement.
unfoldable pub decide_unsettled : Candidate → AgentOutcome × List Text
unfolding flagged
decide_unsettled c =
    let reasons =
      when (is_none c.amount_agrees) (lit "candidate asserts no funding amount to corroborate")
      ++ when (is_none c.deadline_agrees) (lit "candidate asserts no deadline to corroborate") in
    if not (is_empty c.contradictions)
    then (review_required, flagged c)
    else if is_empty reasons
    then (review_required, lit "evidence is insufficient to corroborate automatically" ∷ [])
    else (review_required, reasons)

unfoldable pub decide_outcome : Candidate → AgentOutcome × List Text
unfolding is_contradicted decide_corroborated decide_unsettled
decide_outcome c =
    if is_contradicted c
    then (
      reject_recommended,
      when (is_false c.amount_agrees) (lit "official page states a different funding amount")
          ++ when (is_false c.deadline_agrees) (lit "official page states a different deadline"),
    )
    else if not (has_text c.official_url)
    then (more_evidence_required, lit "no official source found" ∷ [])
    else if not c.official_page_fetched
    then (more_evidence_required, lit "official source could not be fetched" ∷ [])
    else if is_empty c.evidence
    then (more_evidence_required, lit "no evidence could be attached to any claim" ∷ [])
    else if not (is_empty (missing_claims c))
    then (more_evidence_required, map (λ claim. lit "no evidence for " ++ claim) (missing_claims c))
    else if is_true c.amount_agrees && is_true c.deadline_agrees
    then decide_corroborated c
    else decide_unsettled c

unfoldable pub outcome_for_page_type : Text → Option AgentOutcome
outcome_for_page_type page_type =
    if text_eq page_type (page_type_value not_a_scholarship) then some reject_recommended else none

abbrev pub same_outcome : AgentOutcome → AgentOutcome → Bool
same_outcome review_required review_required = true
same_outcome more_evidence_required more_evidence_required = true
same_outcome auto_check_eligible auto_check_eligible = true
same_outcome reject_recommended reject_recommended = true
same_outcome _ _ = false

abbrev pub has_outcome : AgentOutcome → Candidate → Bool
has_outcome o c = elim c.outcome [ none ↦ false | some p ↦ same_outcome o p ]

-- The first outcome of a list that some candidate has.
unfoldable pub first_present : List AgentOutcome → List Candidate → AgentOutcome
first_present [] candidates = review_required
first_present (o ∷ os) candidates =
    let rest = first_present os candidates in if any (has_outcome o) candidates then o else rest

unfoldable pub roll_up : List Candidate → AgentOutcome
unfolding first_present
roll_up candidates =
    if is_empty candidates
    then more_evidence_required
    else first_present
        (review_required ∷ reject_recommended ∷ more_evidence_required ∷ auto_check_eligible ∷ [])
        candidates
