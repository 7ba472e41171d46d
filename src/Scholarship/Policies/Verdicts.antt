-- ===== src/Scholarship/Policies/Verdicts.antt =====
-- When each outcome is given, in terms of the evidence, and what a model's output can change.
use edufurther_agent_be.Base.{
  ◌≡◌, ◌≢◌, refl, ◌↔◌, ◌⊎◌, true, false, some, List, [], Text, is_empty, arith,
}
use edufurther_agent_be.Scholarship.Schemas.{
  AgentOutcome, review_required, more_evidence_required, auto_check_eligible, reject_recommended,
  Candidate, EligibilityRule, has_text,
}
use edufurther_agent_be.Scholarship.Policies.{missing_claims, is_contradicted, decide_outcome}

-- A candidate is rejected exactly when its official page was fetched and a figure that was read
-- deterministically disagrees with it.
pub reject_recommended_iff :
    (c : Candidate)
    → ((decide_outcome c).0 ≡ reject_recommended) ↔ (
        (c.official_page_fetched ≡ true)
        × ((c.amount_agrees ≡ some false) ⊎ (c.deadline_agrees ≡ some false)))
unfolding decide_outcome
reject_recommended_iff c = ground arith

-- What has to be there before a candidate's figures are looked at.
abbrev pub IsComplete : Candidate → Type 0
IsComplete c =
    (has_text c.official_url ≡ true)
    × (c.official_page_fetched ≡ true)
    × (is_empty c.evidence ≡ false)
    × (is_empty (missing_claims c) ≡ true)

-- The one outcome that the product's gates may act on is given exactly to a complete candidate whose
-- funding and deadline both agree, about which the model flagged nothing, and which has requirements.
pub auto_check_eligible_iff :
    (c : Candidate)
    → ((decide_outcome c).0 ≡ auto_check_eligible) ↔ (
        IsComplete c
        × (c.amount_agrees ≡ some true)
        × (c.deadline_agrees ≡ some true)
        × (is_empty c.contradictions ≡ true)
        × (is_empty c.eligibility_rules ≡ false))
unfolding decide_outcome
auto_check_eligible_iff c = ground arith

-- More evidence is asked for exactly where nothing contradicts a candidate that is not complete.
pub more_evidence_required_iff :
    (c : Candidate)
    → ((decide_outcome c).0 ≡ more_evidence_required)
      ↔ ((is_contradicted c ≡ false) × (¬ IsComplete c))
unfolding decide_outcome
more_evidence_required_iff c = ground arith

-- No outcome comes without a reason.
pub decide_outcome_reasons : (c : Candidate) → (decide_outcome c).1 ≢ []
unfolding decide_outcome
decide_outcome_reasons c = ground arith

abbrev pub IsJudgement : AgentOutcome → Type 0
IsJudgement o = (o ≡ auto_check_eligible) ⊎ (o ≡ review_required)

-- The two fields of a candidate that raw model output fills, replaced.
abbrev pub with_model_output : List Text → List EligibilityRule → Candidate → Candidate
with_model_output contradictions rules c = record c {
  contradictions = contradictions;
  eligibility_rules = rules;
}

missing_claims-with_model_output :
    (xs : List Text) (rules : List EligibilityRule) (c : Candidate)
    → missing_claims (with_model_output xs rules c) ≡ missing_claims c
unfolding missing_claims
missing_claims-with_model_output xs rules c = refl

-- Whatever contradictions and requirements a model reports, they change nothing but the choice
-- between an automatic check and a review: they neither reject a candidate nor clear it of a
-- rejection, and neither complete it nor make it incomplete.
pub model_output_confined :
    (xs : List Text) (rules : List EligibilityRule) (c : Candidate)
    → ((decide_outcome (with_model_output xs rules c)).0 ≡ (decide_outcome c).0)
      ⊎ (IsJudgement (decide_outcome (with_model_output xs rules c)).0
          × IsJudgement (decide_outcome c).0)
unfolding decide_outcome
model_output_confined xs rules c = ground (arith, missing_claims-with_model_output xs rules c)
