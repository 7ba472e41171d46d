-- ===== src/Runtime/Jobs.antt =====
-- src/app/infra/jobs.py over the tables of src/app/infra/models.py. A session's statements are
-- functions on the tables; `created_at`, `updated_at` and `started_at`, which no statement reads, are
-- left out, and so are the generated keys of errors and outputs.
mod Tables
pub mod Rows
pub mod Keys
pub mod Due
pub mod Claims
pub mod Leases
pub mod Moves
pub mod Sequences
pub use Tables.{AgentJob, AgentJobAttempt, AgentError, AgentOutput, Db, JobRequest}
use edufurther_agent_be.Base.{
  ℕ, Bool, true, false, ◌&&◌, ◌||◌, not, Option, none, some, List, [], ◌∷◌, ◌++◌, map, Text, lit,
  text_eq, keep, find_first, take, length, any, leb, ◌==◌, is_none, if◌then◌else◌,
}
use edufurther_agent_be.Errors.{PyError, other_error, Result, ok, raise}
use edufurther_agent_be.Json.{Fields}
use edufurther_agent_be.Runtime.Retries.{
  JobState, queued, running, retry_wait, JobTransition, ErrorClass, is_claimable, has_passed, claim,
  lease_expiry, max_error_length,
}

-- `select(AgentJob).where(AgentJob.job_id == job_id)`
unfoldable pub find_job : ℕ → List AgentJob → Option AgentJob
find_job id = find_first (λ job. job.job_id == id)

-- `select(AgentJob).where(AgentJob.idempotency_key == key)`
unfoldable pub find_key : Text → List AgentJob → Option AgentJob
find_key key = find_first (λ job. text_eq job.idempotency_key key)

-- `update(AgentJob).where(p)`
unfoldable pub update_where :
    (AgentJob → Bool) → (AgentJob → AgentJob) → List AgentJob → List AgentJob
update_where p f = map (λ job. if p job then f job else job)

unfoldable pub get_job : ℕ → Db → Option AgentJob
get_job id db = find_job id db.jobs

unfoldable pub new_row : ℕ → JobRequest → AgentJob
new_row job_id r = record {
  job_id = job_id;
  product_id = r.product_id;
  use_case_id = r.use_case_id;
  input_reference = r.input_reference;
  correlation_id = r.correlation_id;
  idempotency_key = r.idempotency_key;
  workflow_version = r.workflow_version;
  state = queued;
  attempts = 0;
  payload = r.payload;
  last_error = none;
  next_attempt_at = none;
  lease_expires_at = none;
  expires_at = r.expires_at;
}

-- `insert(...).on_conflict_do_nothing(index_elements=["idempotency_key"]).returning(job_id)`
unfoldable pub insert_job : ℕ → JobRequest → List AgentJob → List AgentJob × Option ℕ
unfolding find_key new_row
insert_job fresh r jobs =
    if is_none (find_key r.idempotency_key jobs)
    then (jobs ++ new_row fresh r ∷ [], some fresh)
    else (jobs, none)

-- `none` is the `RuntimeError` of a job that vanished. `fresh` is the generated key of the row.
unfoldable pub enqueue_job : ℕ → JobRequest → Db → Option (AgentJob × Bool) × Db
unfolding insert_job
enqueue_job fresh r db =
    let (jobs, created_id) = insert_job fresh r db.jobs in
    (
      elim (find_key r.idempotency_key jobs) [
        | none ↦ none
        | some job ↦ some (job, not (is_none created_id))
      ],
      record db { jobs = jobs },
    )

-- `_apply`
unfoldable pub apply : JobTransition → AgentJob → AgentJob
apply t job =
    let moved = record job {
      state = t.state;
      attempts = t.attempts;
      next_attempt_at = t.next_attempt_at;
      lease_expires_at = t.lease_expires_at;
    } in
    elim t.last_error [ none ↦ moved | some e ↦ record moved { last_error = some e } ]

abbrev pub has_id : ℕ → AgentJob → Bool
has_id id job = job.job_id == id

-- The row lock of `FOR UPDATE` makes the read and the write one step.
unfoldable pub claim_job : ℕ → ℕ → ℕ → Db → Option AgentJob × Db
unfolding find_job update_where apply claim
claim_job id lease_seconds now db = elim (find_job id db.jobs) [
  | none ↦ (none, db)
  | some job ↦ elim (claim job.state job.attempts lease_seconds job.next_attempt_at now) [
    | none ↦ (none, db)
    | some t ↦ (some (apply t job), record db { jobs = update_where (has_id id) (apply t) db.jobs })
  ]
]

-- Ordered insertion of an id, for `ORDER BY job_id`.
unfoldable pub insert_id : ℕ → List ℕ → List ℕ
insert_id n [] = n ∷ []
insert_id n (m ∷ ms) = if leb n m then n ∷ m ∷ ms else m ∷ insert_id n ms

unfoldable pub sort_ids : List ℕ → List ℕ
unfolding insert_id
sort_ids [] = []
sort_ids (n ∷ ns) = insert_id n (sort_ids ns)

-- `SELECT job_id WHERE p ORDER BY job_id LIMIT limit FOR UPDATE SKIP LOCKED`; `locked` tells the rows
-- that another transaction holds.
unfoldable pub select_ids : (ℕ → Bool) → ℕ → (AgentJob → Bool) → List AgentJob → List ℕ
unfolding sort_ids
select_ids locked limit p jobs =
    take limit
      (sort_ids (map (λ job. job.job_id) (keep (λ job. p job && not (locked job.job_id)) jobs)))

-- The `WHERE` of a due row.
unfoldable pub due_row : ℕ → AgentJob → Bool
due_row now job = is_claimable job.state && has_passed job.next_attempt_at now

unfoldable pub due_job_ids : (ℕ → Bool) → ℕ → ℕ → Db → List ℕ
unfolding select_ids due_row
due_job_ids locked limit now db = select_ids locked limit (due_row now) db.jobs

unfoldable pub count_due_jobs : ℕ → Db → ℕ
unfolding due_row
count_due_jobs now db = length (keep (due_row now) db.jobs)

abbrev pub is_running : JobState → Bool
is_running running = true
is_running _ = false

-- The `WHERE` of a running row whose lease is missing or over.
unfoldable pub stale_row : ℕ → AgentJob → Bool
stale_row now job = is_running job.state && has_passed job.lease_expires_at now

abbrev pub id_in : List ℕ → AgentJob → Bool
id_in ids job = any (λ id. job.job_id == id) ids

unfoldable pub lease_expired_message : Text
lease_expired_message = lit "lease expired; worker did not finish"

unfoldable pub requeue : ℕ → AgentJob → AgentJob
requeue now job = record job {
  state = retry_wait;
  lease_expires_at = none;
  next_attempt_at = some now;
  last_error = some lease_expired_message;
}

unfoldable pub reclaim_expired_leases : (ℕ → Bool) → ℕ → ℕ → Db → ℕ × Db
unfolding select_ids stale_row update_where requeue
reclaim_expired_leases locked limit now db =
    let ids = select_ids locked limit (stale_row now) db.jobs in
    (length ids, record db { jobs = update_where (id_in ids) (requeue now) db.jobs })

unfoldable pub renew_lease : ℕ → ℕ → ℕ → Db → Db
unfolding update_where
renew_lease id lease_seconds now db = record db {
  jobs =
      update_where (λ job. has_id id job && is_running job.state)
        (λ job. record job { lease_expires_at = some (lease_expiry lease_seconds now) }) db.jobs;
}

unfoldable pub apply_transition : ℕ → JobTransition → Db → Db
unfolding update_where apply
apply_transition id t db = record db { jobs = update_where (has_id id) (apply t) db.jobs }

abbrev pub is_attempt : ℕ → ℕ → AgentJobAttempt → Bool
is_attempt id number attempt = attempt.job_id == id && attempt.attempt_number == number

unfoldable pub integrity_error : PyError
integrity_error = record {
  kind = other_error;
  type_name = lit "IntegrityError";
  status_code = none;
  message = lit "duplicate key value violates unique constraint uq_agent_job_attempts_job_number";
}

unfoldable pub new_attempt : ℕ → AgentJob → AgentJobAttempt
new_attempt fresh job = record {
  attempt_id = fresh;
  job_id = job.job_id;
  attempt_number = job.attempts;
  finished_at = none;
  outcome_state = none;
  error_class = none;
  error = none;
}

-- The insertion of a row that `uq_agent_job_attempts_job_number` allows.
unfoldable pub start_attempt : ℕ → AgentJob → Db → Result Db
unfolding new_attempt
start_attempt fresh job db =
    if any (is_attempt job.job_id job.attempts) db.attempts
    then raise integrity_error
    else ok (record db { attempts = db.attempts ++ new_attempt fresh job ∷ [] })

-- `session.get(AgentJobAttempt, attempt_id)` and, where the row is there, the writes to it.
unfoldable pub finish_attempt : ℕ → JobState → Option ErrorClass → Option Text → ℕ → Db → Db
finish_attempt attempt_id outcome_state error_class error now db = record db {
  attempts =
      map
        (λ attempt.
          if attempt.attempt_id == attempt_id
          then record attempt {
            finished_at = some now;
            outcome_state = some outcome_state;
            error_class = error_class;
            error = error;
          }
          else attempt)
        db.attempts;
}

unfoldable pub record_error : ℕ → ErrorClass → Text → ℕ → Db → Db
record_error id error_class message attempt_number db = record db {
  errors =
      db.errors
      ++ record {
        job_id = id;
        attempt_number = some attempt_number;
        error_class = error_class;
        message = take max_error_length message;
      }
        ∷ [];
}
