-- ===== src/Runtime/GraphRunner/Outcome.antt =====
-- How an execution ends: the verdict on the run, and the row that it leaves.
use edufurther_agent_be.Base.{ℕ, ◌≤◌, ◌<◌, ◌≡◌, refl, sym, ap, ◌∙◌, ◌⊎◌, none, some, arith}
use edufurther_agent_be.Errors.{Result, ok, raise}
use edufurther_agent_be.Settings.{Settings}
use edufurther_agent_be.Runtime.Retries.{
  JobState, completed, retry_wait, failed_review, retryable, permanent, JobTransition, succeed,
  fail,
}
use edufurther_agent_be.Runtime.Jobs.{
  AgentJob, Db, find_job, claim_job, start_attempt, apply, apply_transition, record_error,
  finish_attempt,
}
use edufurther_agent_be.Runtime.Jobs.Rows.{find_job-apply_transition, apply_fields}
use edufurther_agent_be.Runtime.GraphRunner.{
  RunResult, Engine, Occasion, classify, failure_of, settle, record_failure, record_output,
  run_claimed, run_graph, snapshot_of, execute_job,
}

-- The transition that a run's result calls for.
abbrev pub verdict : Settings → ℕ → Result RunResult → ℕ → JobTransition
verdict settings n (ok result) now = succeed n
verdict settings n (raise exc) now = failure_of settings n exc now

verdict-keeps :
    (settings : Settings) (n : ℕ) (result : Result RunResult) (now : ℕ)
    → ((verdict settings n result now).attempts ≡ n)
      × ((verdict settings n result now).lease_expires_at ≡ none)
unfolding succeed failure_of fail
verdict-keeps settings n (ok result) now = (refl, refl)
verdict-keeps settings n (raise exc) now = (ground arith, ground arith)

record_output-jobs : (id : ℕ) (r : RunResult) (db : Db) → (record_output id r db).jobs ≡ db.jobs
unfolding record_output
record_output-jobs id r db = ground arith

settle-verdict :
    (settings : Settings) (id aid n : ℕ) (result : Result RunResult) (now : ℕ) (db : Db)
    → ((settle settings id aid n result now db).0 ≡ (verdict settings n result now).state)
      × ((settle settings id aid n result now db).1.jobs
          ≡ (apply_transition id (verdict settings n result now) db).jobs)
unfolding settle record_failure finish_attempt record_error succeed
settle-verdict settings id aid n (ok result) now db =
    (refl, unfold apply_transition in rw (record_output-jobs id result db))
settle-verdict settings id aid n (raise exc) now db = (refl, refl)

execute_job_claimed :
    (settings : Settings) (engine : Engine) (o : Occasion) (id : ℕ) (db : Db) (job : AgentJob)
    (db1 db2 : Db)
    → claim_job id settings.job_lease_seconds o.claimed_at db ≡ (some job, db1)
    → start_attempt o.attempt_id job db1 ≡ ok db2
    → execute_job settings engine o id db ≡ (
      ok (run_claimed settings engine o id job db2).0,
      (run_claimed settings engine o id job db2).1,
    )
unfolding execute_job
execute_job_claimed settings engine o id db job db1 db2 c s = ground arith

module _ (settings : Settings) (engine : Engine) (o : Occasion) (id : ℕ) (db : Db) where
  -- What the run of a claimed job gave.
  abbrev pub run_result : AgentJob → Result RunResult
  run_result job = run_graph engine id (snapshot_of job)

  -- Whatever the graph did, returned or raised, and whatever other sessions did meanwhile: a job that
  -- was claimed, whose row is still in the table, ends in the state that the verdict on the run calls
  -- for, on the attempt that was claimed and with its lease released; and that state is returned.
  pub execute_job_settles :
      (job row : AgentJob) (db1 db2 : Db)
      → claim_job id settings.job_lease_seconds o.claimed_at db ≡ (some job, db1)
      → start_attempt o.attempt_id job db1 ≡ ok db2
      → find_job id (o.interim db2).jobs ≡ some row
      → let t = verdict settings job.attempts (run_result job) o.ended_at in
        ((execute_job settings engine o id db).0 ≡ ok t.state)
        × (find_job id (execute_job settings engine o id db).1.jobs ≡ some (apply t row))
        × ((apply t row).state ≡ t.state)
        × ((apply t row).attempts ≡ job.attempts)
        × ((apply t row).lease_expires_at ≡ none)
  unfolding run_claimed
  execute_job_settles job row db1 db2 c s found =
      let t = verdict settings job.attempts (run_result job) o.ended_at in
      let done = execute_job_claimed settings engine o id db job db1 db2 c s in
      let (state, jobs) =
        settle-verdict settings id o.attempt_id job.attempts (run_result job) o.ended_at
          (o.interim db2) in
      (
        rw done (ap ok state),
        rw done (rw jobs (rw (find_job-apply_transition id t (o.interim db2)) (rw found))),
        (apply_fields t row).0,
        (apply_fields t row).1
            ∙ (verdict-keeps settings job.attempts (run_result job) o.ended_at).0,
        (apply_fields t row).3
            ∙ (verdict-keeps settings job.attempts (run_result job) o.ended_at).1,
      )

-- What a run deserves: to complete where it returned; to wait for a retry where it failed in a way
-- that may pass and attempts are left; to be parked for a human where it failed otherwise.
abbrev pub Deserves : Settings → ℕ → Result RunResult → JobState → Type 0
Deserves settings n (ok result) state = state ≡ completed
Deserves settings n (raise exc) state =
    ((classify exc ≡ retryable) × (n < settings.job_max_attempts) × (state ≡ retry_wait))
    ⊎ (((classify exc ≡ permanent) ⊎ (settings.job_max_attempts ≤ n)) × (state ≡ failed_review))

pub verdict-Deserves :
    (settings : Settings) (n : ℕ) (result : Result RunResult) (now : ℕ)
    → Deserves settings n result (verdict settings n result now).state
unfolding succeed failure_of fail
verdict-Deserves settings n (ok result) now = refl
verdict-Deserves settings n (raise exc) now = ground arith

-- Whatever the graph did, returned or raised, and whatever other sessions did meanwhile: a job that
-- was claimed and whose attempt row was accepted, and whose row is still in the table when the graph
-- is done, is left with its lease released, on the attempt that was claimed, and in the state that
-- the run deserves: completed after a run that returned, waiting for a retry after a failure that may
-- pass with attempts left, parked for review after any other. That state is returned too.
pub execute_job_ends :
    (settings : Settings) (engine : Engine) (o : Occasion) (id : ℕ) (db : Db)
    → (job row : AgentJob) (db1 db2 : Db)
    → claim_job id settings.job_lease_seconds o.claimed_at db ≡ (some job, db1)
    → start_attempt o.attempt_id job db1 ≡ ok db2
    → find_job id (o.interim db2).jobs ≡ some row
    → (end : AgentJob) × ((execute_job settings engine o id db).0 ≡ ok end.state)
      × (find_job id (execute_job settings engine o id db).1.jobs ≡ some end)
      × Deserves settings job.attempts (run_graph engine id (snapshot_of job)) end.state
      × (end.attempts ≡ job.attempts)
      × (end.lease_expires_at ≡ none)
execute_job_ends settings engine o id db job row db1 db2 c s found =
    let t = verdict settings job.attempts (run_result settings engine o id db job) o.ended_at in
    let (returned, stored, state, attempts, lease) =
      execute_job_settles settings engine o id db job row db1 db2 c s found in
    (
      apply t row,
      returned ∙ ap ok (sym state),
      stored,
      rw state (
          verdict-Deserves settings job.attempts (run_result settings engine o id db job)
            o.ended_at),
      attempts,
      lease,
    )
