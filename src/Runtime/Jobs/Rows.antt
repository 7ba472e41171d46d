-- ===== src/Runtime/Jobs/Rows.antt =====
-- Reads of a job's row after an update: what `WHERE` and `SET` leave of the row that a query finds.
use mathlib.Core.Option
use edufurther_agent_be.Base.{
  ℕ, ◌≡◌, refl, Bool, some, List, [], ◌∷◌, ◌++◌, Text, text_eq→eq, Option-cases, arith,
  if◌then◌else◌, inl, inr, is_none,
}
use edufurther_agent_be.Runtime.Jobs.{
  AgentJob, Db, find_job, find_key, update_where, apply, has_id, apply_transition,
}
use edufurther_agent_be.Runtime.Retries.{JobTransition}

abbrev pub set_row : (AgentJob → Bool) → (AgentJob → AgentJob) → AgentJob → AgentJob
set_row p f job = if p job then f job else job

-- An update that leaves the key column alone is seen by the query of a row as an update of it.
pub find_job-update_where :
    (id : ℕ) (p : AgentJob → Bool) (f : AgentJob → AgentJob) (jobs : List AgentJob)
    → ((job : AgentJob) → (f job).job_id ≡ job.job_id)
    → find_job id (update_where p f jobs) ≡ Option.map (set_row p f) (find_job id jobs)
unfolding find_job update_where
find_job-update_where id p f [] keeps = refl
find_job-update_where id p f (j ∷ jobs) keeps =
    ground (arith, keeps j, find_job-update_where id p f jobs keeps)

pub find_key-update_where :
    (key : Text) (p : AgentJob → Bool) (f : AgentJob → AgentJob) (jobs : List AgentJob)
    → ((job : AgentJob) → (f job).idempotency_key ≡ job.idempotency_key)
    → find_key key (update_where p f jobs) ≡ Option.map (set_row p f) (find_key key jobs)
unfolding find_key update_where
find_key-update_where key p f [] keeps = refl
find_key-update_where key p f (j ∷ jobs) keeps =
    ground (arith, keeps j, find_key-update_where key p f jobs keeps)

pub find_job-has_id :
    (id : ℕ) (jobs : List AgentJob) (job : AgentJob) → find_job id jobs ≡ some job → job.job_id ≡ id
unfolding find_job
find_job-has_id id [] job h = cc
find_job-has_id id (j ∷ jobs) job h = ground (arith, find_job-has_id id jobs job)

pub find_key-has_key :
    (key : Text) (jobs : List AgentJob) (job : AgentJob)
    → find_key key jobs ≡ some job
    → job.idempotency_key ≡ key
unfolding find_key
find_key-has_key key [] job h = cc
find_key-has_key key (j ∷ jobs) job h =
    ground (arith, text_eq→eq j.idempotency_key key, find_key-has_key key jobs job)

pub find_job-append :
    (id : ℕ) (jobs more : List AgentJob)
    → find_job id (jobs ++ more)
      ≡ (if is_none (find_job id jobs) then find_job id more else find_job id jobs)
unfolding find_job
find_job-append id [] more = refl
find_job-append id (j ∷ jobs) more = ground (arith, find_job-append id jobs more)

pub find_key-append :
    (key : Text) (jobs more : List AgentJob)
    → find_key key (jobs ++ more)
      ≡ (if is_none (find_key key jobs) then find_key key more else find_key key jobs)
unfolding find_key
find_key-append key [] more = refl
find_key-append key (j ∷ jobs) more = ground (arith, find_key-append key jobs more)

pub apply-job_id : (t : JobTransition) (job : AgentJob) → (apply t job).job_id ≡ job.job_id
unfolding apply
apply-job_id t job = ground arith

pub apply-idempotency_key :
    (t : JobTransition) (job : AgentJob) → (apply t job).idempotency_key ≡ job.idempotency_key
unfolding apply
apply-idempotency_key t job = ground arith

pub apply_fields :
    (t : JobTransition) (job : AgentJob)
    → ((apply t job).state ≡ t.state)
      × ((apply t job).attempts ≡ t.attempts)
      × ((apply t job).next_attempt_at ≡ t.next_attempt_at)
      × ((apply t job).lease_expires_at ≡ t.lease_expires_at)
unfolding apply
apply_fields t job = (ground arith, ground arith, ground arith, ground arith)

-- A transition reaches the row of its job, and no other.
pub find_job-apply_transition :
    (id : ℕ) (t : JobTransition) (db : Db)
    → find_job id (apply_transition id t db).jobs ≡ Option.map (apply t) (find_job id db.jobs)
unfolding apply_transition
find_job-apply_transition id t db = elim (Option-cases (find_job id db.jobs)) [
  | inl e ↦ rw (find_job-update_where id (has_id id) (apply t) db.jobs (apply-job_id t)) (rw e)
  | inr e ↦
      rw (find_job-update_where id (has_id id) (apply t) db.jobs (apply-job_id t))
        (rw e.1 (ground (arith, find_job-has_id id db.jobs e.0 e.1)))
]
