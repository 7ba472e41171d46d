-- ===== src/Runtime/Tests.antt =====
-- Test data of src/app/runtime and src/app/infra/jobs.py, and the theorems at concrete inputs.
mod Runs
mod Lifecycle
use edufurther_agent_be.Base.{
  ℕ, ◌+◌, ◌*◌, ◌≤◌, ◌<◌, min, ◌≡◌, ◌≢◌, refl, ◌⊎◌, inl, inr, Bool, true, false, Option, none, some,
  List, [], ◌∷◌, ◌++◌, Text, lit, text_eq, contains_text, In, arith, length,
}
use edufurther_agent_be.Errors.{PyError, timeout_error, http_error, Result, ok, raise}
use edufurther_agent_be.Json.{end}
use edufurther_agent_be.Settings.{Settings}
use edufurther_agent_be.Runtime.Retries.{
  JobState, queued, running, retry_wait, completed, retryable, backoff_seconds,
  base_backoff_seconds, max_backoff_seconds, seconds, lease_expiry,
}
use edufurther_agent_be.Runtime.Retries.Backoff.{backoff_seconds_bounds, backoff_seconds-suc}
use edufurther_agent_be.Runtime.Jobs.{
  AgentJob, Db, find_job, find_key, JobRequest, new_row, enqueue_job, claim_job, start_attempt,
  apply, due_job_ids, renew_lease, reclaim_expired_leases, integrity_error, is_attempt,
}
use edufurther_agent_be.Runtime.Jobs.Keys.{
  UniqueKeys, enqueue_job-UniqueKeys, enqueue_job_idempotent,
}
use edufurther_agent_be.Runtime.Jobs.Claims.{
  claim_job_exclusive, due_job_ids-claim_job, claim_job-due_job_ids,
}
use edufurther_agent_be.Runtime.Jobs.Leases.{renew_lease_protects}
use edufurther_agent_be.Runtime.GraphRunner.{
  Engine, Occasion, RunResult, execute_job, run_graph, snapshot_of, classify,
}
use edufurther_agent_be.Runtime.GraphRunner.Outcome.{Deserves, execute_job_ends}
use edufurther_agent_be.Runtime.GraphRunner.Interference.{
  execute_job_overwrites, execute_job_stuck, reclaim_unbounded,
}
use edufurther_agent_be.Runtime.Sweeper.{Sweep, sweep_once}
use edufurther_agent_be.Runtime.Sweeper.Pass.{sweep_once_counts}

abbrev settings : Settings
settings = record {
  workflow_version = [];
  shadow_mode = true;
  job_lease_seconds = 300;
  job_max_attempts = 5;
  job_sweep_batch_limit = 20;
  disabled_tools = [];
  jina_api_key = none;
  jina_monthly_call_limit = 0;
  jina_timeout_seconds = 30;
  search_result_limit = 5;
  fetch_timeout_seconds = 20;
  fetch_max_bytes = 1000;
  tavily_timeout_seconds = 20;
  parsebot_timeout_seconds = 20;
}

-- A row of the table, by its id and its state.
abbrev pub row : ℕ → JobState → Option ℕ → AgentJob
row n state lease = record {
  job_id = n;
  product_id = [];
  use_case_id = b'u' ∷ [];
  input_reference = n ∷ [];
  correlation_id = [];
  idempotency_key = n ∷ [];
  workflow_version = [];
  state = state;
  attempts = 1;
  payload = end;
  last_error = none;
  next_attempt_at = none;
  lease_expires_at = lease;
  expires_at = none;
}

abbrev pub table : List AgentJob → Db
table jobs = record { jobs = jobs; attempts = []; errors = []; outputs = [] }

-- A job that waits behind one that runs until the 400th second.
abbrev pub two_jobs : Db
two_jobs = table (row 1 running (some 400000000) ∷ row 2 queued none ∷ [])

abbrev pub unlocked : ℕ → Bool
unlocked id = false

pub two_jobs_keys : UniqueKeys two_jobs.jobs
unfolding find_key find_job text_eq
two_jobs_keys = (refl, refl, (refl, refl, tt))

-- The second job once it has been claimed at the 100th second.
abbrev claimed_job : AgentJob
claimed_job = record (row 2 running (some 400000000)) { attempts = 2 }

abbrev claimed_db : Db
claimed_db = table (row 1 running (some 400000000) ∷ claimed_job ∷ [])

claimed : claim_job 2 300 100000000 two_jobs ≡ (some claimed_job, claimed_db)
unfolding claim_job
claimed = refl

claim_job_exclusive_example :
    (find_job 2 claimed_db.jobs ≡ some claimed_job)
    × (claimed_job.state ≡ running)
    × (claimed_job.lease_expires_at ≡ some (100000000 + seconds 300))
    × ((lease' now' : ℕ) (db'' : Db) (row : AgentJob)
        → find_job 2 db''.jobs ≡ some row
        → row.state ≡ running
        → claim_job 2 lease' now' db'' ≡ (none, db''))
claim_job_exclusive_example =
    claim_job_exclusive 2 300 100000000 two_jobs claimed_job claimed_db claimed

selected : In 2 (due_job_ids unlocked 20 100000000 two_jobs)
unfolding due_job_ids
selected = inl refl

due_job_ids-claim_job_example :
    (job : AgentJob) × (db' : Db) × (claim_job 2 300 100000007 two_jobs ≡ (some job, db'))
due_job_ids-claim_job_example =
    due_job_ids-claim_job unlocked 20 100000000 two_jobs 2 300 100000007 two_jobs_keys selected
      (omega arith)

claim_job-due_job_ids_example : In 2 (due_job_ids unlocked 20 100000000 two_jobs)
claim_job-due_job_ids_example =
    claim_job-due_job_ids unlocked 20 100000000 two_jobs 2 300 claimed_job claimed_db claimed refl
      (omega arith)

renewed_keys : UniqueKeys (renew_lease 2 300 200000000 claimed_db).jobs
unfolding find_key find_job renew_lease text_eq
renewed_keys = (refl, refl, (refl, refl, tt))

found_job : find_job 2 claimed_db.jobs ≡ some claimed_job
unfolding find_job
found_job = refl

renew_lease_protects_example :
    find_job 2
      (reclaim_expired_leases unlocked 20 450000000 (renew_lease 2 300 200000000 claimed_db)).1.jobs
    ≡ some (record claimed_job { lease_expires_at = some (lease_expiry 300 200000000) })
renew_lease_protects_example =
    renew_lease_protects 2 300 200000000 450000000 20 unlocked claimed_db claimed_job renewed_keys
      found_job refl (omega arith)

-- One minute, two, and at most six hours.
backoff_runs :
    (backoff_seconds 1 ≡ 60)
    × (backoff_seconds 2 ≡ 120)
    × (backoff_seconds 9 ≡ 15360)
    × (backoff_seconds 10 ≡ 21600)
unfolding backoff_seconds
backoff_runs = (refl, refl, refl, refl)
