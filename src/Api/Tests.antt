-- ===== src/Api/Tests.antt =====
-- Submissions at concrete inputs.
use edufurther_agent_be.Base.{
  ℕ, ◌≤◌, ◌≡◌, refl, true, false, none, some, List, [], ◌∷◌, ◌++◌, Text, text_eq, contains_text,
  lit, length, arith, is_none, get_or, if◌then◌else◌,
}
use edufurther_agent_be.Core.Identifiers.{job_idempotency_key}
use edufurther_agent_be.Json.{end}
use edufurther_agent_be.Settings.{Settings}
use edufurther_agent_be.Runtime.Jobs.{Db, find_key, new_row}
use edufurther_agent_be.Api.Jobs.{
  JobSubmission, JobAccepted, accepted, Arrival, key_of, request_of, submit_job,
}
use edufurther_agent_be.Api.Jobs.Submission.{submit_job_once, job_idempotency_key_collides}

abbrev settings : Settings
settings = record {
  workflow_version = b'1' ∷ [];
  shadow_mode = true;
  job_lease_seconds = 300;
  job_max_attempts = 5;
  job_sweep_batch_limit = 20;
  disabled_tools = [];
  jina_api_key = none;
  jina_monthly_call_limit = 0;
  jina_timeout_seconds = 30;
  search_result_limit = 5;
  fetch_timeout_seconds = 20;
  fetch_max_bytes = 1000;
  tavily_timeout_seconds = 20;
  parsebot_timeout_seconds = 20;
}

abbrev digest : Text → Text
digest key = []

abbrev body : JobSubmission
body = record {
  product_id = b'p' ∷ [];
  use_case_id = b'u' ∷ [];
  input_reference = b'r' ∷ [];
  correlation_id = none;
  workflow_version = none;
  payload = end;
}

-- The same work, with the version written out.
abbrev again : JobSubmission
again = record body { workflow_version = some (b'1' ∷ []) }

abbrev arrival : ℕ → Arrival
arrival n = record { job_id = n; correlation_id = n ∷ []; now = n }

abbrev empty : Db
empty = record { jobs = []; attempts = []; errors = []; outputs = [] }

abbrev known : List Text
known = (b'u' ∷ []) ∷ []

is_known : contains_text (b'u' ∷ []) known ≡ true
unfolding contains_text text_eq
is_known = refl

submit_job_once_example :
    let first = submit_job settings digest known (arrival 7) body empty in
    let second = submit_job settings digest known (arrival 8) again first.1 in
    let found = find_key (key_of settings digest known body) empty.jobs in
    let row = new_row 7 (request_of settings digest known (arrival 7) body) in
    (x : JobAccepted) × (y : JobAccepted) × (first.0 ≡ accepted x)
    × (x.created ≡ is_none found)
    × (x.job_id ≡ (get_or found row).job_id)
    × (first.1 ≡ (if x.created then record empty { jobs = empty.jobs ++ row ∷ [] } else empty))
    × (first.2 ≡ (if x.created then some x.job_id else none))
    × (second.0 ≡ accepted y)
    × (y.job_id ≡ x.job_id)
    × (y.created ≡ false)
    × (second.1 ≡ first.1)
    × (second.2 ≡ none)
submit_job_once_example =
    submit_job_once settings digest known (arrival 7) (arrival 8) body again empty is_known is_known
      same_key
  where
    same_key : key_of settings digest known again ≡ key_of settings digest known body
    same_key = unfold key_of in refl

short_key :
    length
      ((b'u' ∷ []) ++ lit ":" ++ ((b'1' ∷ []) ++ lit ":" ++ (b'2' ∷ [])) ++ lit ":" ++ (b'r' ∷ []))
    ≤ 500
unfolding lit
short_key = omega arith

job_idempotency_key_collides_example :
    job_idempotency_key digest (b'u' ∷ []) ((b'1' ∷ []) ++ lit ":" ++ (b'2' ∷ [])) (b'r' ∷ [])
    ≡ job_idempotency_key digest (b'u' ∷ []) (b'1' ∷ []) ((b'2' ∷ []) ++ lit ":" ++ (b'r' ∷ []))
job_idempotency_key_collides_example =
    job_idempotency_key_collides digest (b'u' ∷ []) (b'1' ∷ []) (b'2' ∷ []) (b'r' ∷ []) short_key
