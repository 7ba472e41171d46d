-- ===== src/Scholarship/Tests/Decisions.antt =====
-- The theorems of the workflow's nodes at concrete inputs.
use edufurther_agent_be.Base.{
  ◌≡◌, ◌≢◌, refl, ◌⊎◌, true, false, none, some, [], ◌∷◌, text_eq, All, Any, lit,
}
use edufurther_agent_be.Scholarship.Schemas.{
  AgentOutcome, reject_recommended, Candidate, page_type_value, not_a_scholarship,
}
use edufurther_agent_be.Scholarship.Policies.{decide_outcome, roll_up, outcome_for_page_type}
use edufurther_agent_be.Scholarship.Policies.RollUp.{Decided, AtMost}
use edufurther_agent_be.Scholarship.Workflow.{State, decide, dedupe_candidates, find_identity}
use edufurther_agent_be.Scholarship.Workflow.Decision.{
  IsContradicted, decide_rejects, decide_greatest,
}
use edufurther_agent_be.Scholarship.Workflow.Duplicates.{
  UniqueIdentities, representative, dedupe_candidates_lem,
}
use edufurther_agent_be.Scholarship.Tests.{candidate}

-- The same award without a link, with one, and another award.
abbrev pub unlinked : Candidate
unlinked = record candidate { identity_key = b'k' ∷ [] }

abbrev pub with_link : Candidate
with_link = record unlinked { url = some (b'o' ∷ []); amount_agrees = some false }

abbrev pub state : State
state = record {
  job_id = [];
  correlation_id = [];
  workflow_version = b'1' ∷ [];
  input_reference = [];
  discovery = record {
    discovery_id = b'd' ∷ [];
    raw_title = none;
    raw_excerpt = none;
    source_url = [];
    authority_grade = [];
    provider_name = none;
  };
  approved_domains = [];
  page_text = [];
  page_fetch_method = none;
  page_model = none;
  page_prompt_version = none;
  page_usable = some true;
  page_type = [];
  candidates = unlinked ∷ candidate ∷ with_link ∷ [];
  outcome = none;
  notes = [];
  uncertainty_reasons = [];
}

dedupe_candidates_lem_example :
    UniqueIdentities (dedupe_candidates state).candidates
    × (find_identity (b'k' ∷ []) (dedupe_candidates state).candidates
        ≡ representative (b'k' ∷ []) state.candidates)
dedupe_candidates_lem_example = dedupe_candidates_lem state (b'k' ∷ [])

-- The link wins, in the place of the first.
dedupe_run : (dedupe_candidates state).candidates ≡ with_link ∷ candidate ∷ []
unfolding dedupe_candidates text_eq
dedupe_run = refl

-- One candidate, which its official page contradicts.
abbrev contradicted : State
contradicted = record state { candidates = with_link ∷ [] }

rejected_job : (decide contradicted).outcome ≡ some reject_recommended
unfolding decide decide_outcome roll_up text_eq lit outcome_for_page_type page_type_value
rejected_job = refl

decide_rejects_example :
    (contradicted.page_usable ≢ some false)
    × ((text_eq contradicted.page_type (page_type_value not_a_scholarship) ≡ true)
        ⊎ Any IsContradicted contradicted.candidates)
decide_rejects_example = decide_rejects contradicted rejected_job

decide_greatest_example :
    (o : AgentOutcome) × ((decide state).outcome ≡ some o)
    × Any (Decided o) (decide state).candidates
    × All (AtMost o) (decide state).candidates
decide_greatest_example = decide_greatest state (λ e. cc e)
