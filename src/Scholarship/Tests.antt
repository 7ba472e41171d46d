-- ===== src/Scholarship/Tests.antt =====
-- The theorems of the policies and of the comparisons at concrete inputs, and runs of the matchers.
mod Decisions
mod Sources
mod Submission
mod Extraction
mod Graph
mod Nodes
use edufurther_agent_be.Base.{
  ◌≡◌, ◌≢◌, refl, ◌↔◌, ◌⊎◌, inl, true, false, none, some, List, [], ◌∷◌, Text, lit, text_eq, strip,
  starts_with, lower, contains_text, is_empty, In, All, Any,
}
use edufurther_agent_be.Json.{end}
use edufurther_agent_be.Scholarship.Schemas.{
  AgentOutcome, more_evidence_required, auto_check_eligible, reject_recommended, Candidate,
  Evidence, official_page, explicit, model_extracted,
}
use edufurther_agent_be.Scholarship.Policies.{decide_outcome, roll_up, is_contradicted}
use edufurther_agent_be.Scholarship.Policies.Verdicts.{
  IsComplete, IsJudgement, with_model_output, reject_recommended_iff, auto_check_eligible_iff,
  more_evidence_required_iff, model_output_confined,
}
use edufurther_agent_be.Scholarship.Policies.RollUp.{Decided, AtMost, roll_up_greatest}
use edufurther_agent_be.Scholarship.Compare.{
  Claim, compare_sets, settle_claim, settle_agreement, claim_evidence,
}
use edufurther_agent_be.Scholarship.Compare.Sets.{
  Agreeing, compare_sets_supported, compare_sets_contradicted,
}
use edufurther_agent_be.Scholarship.Compare.Agreement.{
  read, settle_agreement_determined, claim_evidence_supported,
}
use edufurther_agent_be.Scholarship.Compare.Rejection.{Contradicts, settle_agreement_rejects}
use edufurther_agent_be.Scholarship.FactMatching.{
  amounts_match, deadlines_match, parse_amount, parse_deadline, is_date, Date,
}
use edufurther_agent_be.Scholarship.FactMatching.Laws.{
  amounts_match_lem, deadlines_match_lem, parse_deadline-is_date,
}

-- A candidate whose official page was read.
abbrev pub candidate : Candidate
candidate = record {
  title = b't' ∷ [];
  identity_key = [];
  parent_source_url = [];
  parent_discovery_id = [];
  url = none;
  excerpt = none;
  heading = none;
  discovery_id = none;
  deterministic_facts = record {
    funding_mentions = [];
    deadline_mentions = [];
    level_mentions = [];
    eligibility_phrase = none;
  };
  model_facts = end;
  official_url = some (b'o' ∷ []);
  official_page_fetched = true;
  official_fetch_method = none;
  amount_agrees = none;
  deadline_agrees = none;
  contradictions = [];
  eligibility_rules = [];
  evidence = [];
  outcome = none;
  uncertainty_reasons = [];
  prompt_versions = [];
  models = [];
}

abbrev gbp : Text
gbp = 163 ∷ b'1' ∷ b'3' ∷ b',' ∷ b'0' ∷ b'0' ∷ b'0' ∷ []

abbrev gbp_written_out : Text
gbp_written_out =
    b'G' ∷ b'B' ∷ b'P' ∷ 32 ∷ b'1' ∷ b'3' ∷ b'0' ∷ b'0' ∷ b'0' ∷ b'.' ∷ b'0' ∷ b'0' ∷ []

abbrev gbp_other : Text
gbp_other = 163 ∷ b'9' ∷ b'9' ∷ []

-- A claim of one value on each side, which differ, and one without a value.
abbrev differing : Claim
differing = record {
  path = b'f' ∷ [];
  reported = gbp ∷ [];
  official = gbp_other ∷ [];
  comparator = amounts_match;
}

abbrev matching : Claim
matching = record {
  path = b'f' ∷ [];
  reported = gbp ∷ [];
  official = gbp_written_out ∷ [];
  comparator = amounts_match;
}

abbrev silent : Claim
silent = record { path = b'd' ∷ []; reported = []; official = []; comparator = deadlines_match }

amounts_run :
    (amounts_match gbp gbp_written_out ≡ some true)
    × (amounts_match gbp gbp_other ≡ some false)
    × (amounts_match gbp (b'?' ∷ []) ≡ none)
unfolding amounts_match parse_amount lit text_eq strip contains_text
amounts_run = (refl, refl, refl)

reject_recommended_iff_example : ((decide_outcome candidate).0 ≡ reject_recommended) ↔ (
    (true ≡ true)
    × ((candidate.amount_agrees ≡ some false) ⊎ (candidate.deadline_agrees ≡ some false)))
reject_recommended_iff_example = reject_recommended_iff candidate

abbrev corroborated : Candidate
corroborated = record candidate { amount_agrees = some true; deadline_agrees = some true }

auto_check_eligible_iff_example : ((decide_outcome corroborated).0 ≡ auto_check_eligible) ↔ (
    IsComplete corroborated
    × (corroborated.amount_agrees ≡ some true)
    × (corroborated.deadline_agrees ≡ some true)
    × (is_empty corroborated.contradictions ≡ true)
    × (is_empty corroborated.eligibility_rules ≡ false))
auto_check_eligible_iff_example = auto_check_eligible_iff corroborated

model_output_confined_example :
    ((decide_outcome (with_model_output (gbp ∷ []) [] candidate)).0 ≡ (decide_outcome candidate).0)
    ⊎ (IsJudgement (decide_outcome (with_model_output (gbp ∷ []) [] candidate)).0
        × IsJudgement (decide_outcome candidate).0)
model_output_confined_example = model_output_confined (gbp ∷ []) [] candidate

compare_sets_contradicted_example :
    ((compare_sets amounts_match (gbp ∷ []) (gbp_other ∷ [])).0 ≡ some false) ↔ (
      (r : Text) × (o : Text) × (gbp ∷ [] ≡ r ∷ [])
      × (gbp_other ∷ [] ≡ o ∷ [])
      × (amounts_match r o ≡ some false))
compare_sets_contradicted_example =
    compare_sets_contradicted amounts_match (gbp ∷ []) (gbp_other ∷ [])

rejected :
    (decide_outcome (settle_agreement [] candidate differing silent [])).0 ≡ reject_recommended
unfolding decide_outcome settle_agreement amounts_match parse_amount lit text_eq strip contains_text
rejected = refl

settle_agreement_rejects_example :
    (candidate.official_page_fetched ≡ true) × (Contradicts differing [] ⊎ Contradicts silent [])
settle_agreement_rejects_example =
    settle_agreement_rejects [] candidate differing silent [] rejected

differing_verdict : (read differing).0 ≡ some false
unfolding compare_sets amounts_match parse_amount lit text_eq strip contains_text
differing_verdict = refl

matching_verdict : (read matching).0 ≡ some true
unfolding compare_sets amounts_match parse_amount lit text_eq strip contains_text
matching_verdict = refl

abbrev evidence : Evidence
evidence = record {
  claim_path = b'f' ∷ [];
  value = gbp_written_out;
  source_url = b'o' ∷ [];
  source_type = official_page;
  observed_at = [];
  excerpt = none;
  fetch_method = none;
  confidence = some explicit;
}

settled : settle_claim matching [] ≡ (some true, some gbp_written_out, explicit)
unfolding settle_claim compare_sets amounts_match parse_amount lit text_eq strip contains_text
settled = refl

evidence-In : In evidence (claim_evidence candidate [] (b'f' ∷ []) (settle_claim matching []))
unfolding claim_evidence
evidence-In = rw settled (inl refl)

-- "1st June, 2026" and "2026-06-01"
abbrev written_date : Text
written_date =
    b'1' ∷ b's' ∷ b't' ∷ 32 ∷ b'J' ∷ b'u' ∷ b'n' ∷ b'e' ∷ b',' ∷ 32 ∷ b'2' ∷ b'0' ∷ b'2' ∷ b'6' ∷ []

abbrev first_of_june : Date
first_of_june = record { year = 2026; month = 6; day = 1 }

read_date : parse_deadline written_date ≡ some first_of_june
unfolding parse_deadline lit text_eq mathlib.Core.List.flat_map starts_with lower strip
    contains_text
read_date = refl
