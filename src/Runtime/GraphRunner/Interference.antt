-- ===== src/Runtime/GraphRunner/Interference.antt =====
-- What a worker does that is late, or that meets what another one left behind.
use edufurther_agent_be.Base.{
  ℕ, ◌+◌, ◌≤◌, ◌<◌, ◌≡◌, ap, Bool, true, false, none, some, arith, any, length,
}
use edufurther_agent_be.Errors.{PyError, ok, raise}
use edufurther_agent_be.Settings.{Settings}
use edufurther_agent_be.Runtime.Retries.{completed, running, retry_wait, retryable, seconds}
use edufurther_agent_be.Runtime.Jobs.{
  AgentJob, Db, find_job, get_job, claim_job, start_attempt, apply_transition, is_attempt,
  integrity_error, reclaim_expired_leases, requeue, stale_row,
}
use edufurther_agent_be.Runtime.Jobs.Claims.{claim_job-eq_some, claim_job_exclusive, claim_job_due}
use edufurther_agent_be.Runtime.Jobs.Leases.{reclaim_expired_leases_requeues}
use edufurther_agent_be.Runtime.GraphRunner.{
  Engine, Occasion, classify, run_graph, snapshot_of, execute_job, state_of,
}
use edufurther_agent_be.Runtime.GraphRunner.Outcome.{execute_job_ends, Deserves}

-- A job that cannot be claimed is left alone, and the state that it has is returned: `cancelled`
-- stands for a job that is not there.
pub execute_job_unclaimed :
    (settings : Settings) (engine : Engine) (o : Occasion) (id : ℕ) (db : Db)
    → claim_job id settings.job_lease_seconds o.claimed_at db ≡ (none, db)
    → execute_job settings engine o id db ≡ (ok (state_of (find_job id db.jobs)), db)
unfolding execute_job get_job
execute_job_unclaimed settings engine o id db c = ground arith

-- A worker that comes late undoes another's success: where the job was reclaimed and completed while
-- the graph ran, and the run then fails in a way that may pass with attempts left, the completed row
-- goes back to waiting for a retry.
pub execute_job_overwrites :
    (settings : Settings) (engine : Engine) (o : Occasion) (id : ℕ) (db : Db)
    → (job row : AgentJob) (db1 db2 : Db) (exc : PyError)
    → claim_job id settings.job_lease_seconds o.claimed_at db ≡ (some job, db1)
    → start_attempt o.attempt_id job db1 ≡ ok db2
    → find_job id (o.interim db2).jobs ≡ some row
    → row.state ≡ completed
    → run_graph engine id (snapshot_of job) ≡ raise exc
    → classify exc ≡ retryable
    → job.attempts < settings.job_max_attempts
    → (end : AgentJob) × (find_job id (execute_job settings engine o id db).1.jobs ≡ some end)
      × (end.state ≡ retry_wait)
      × (end.attempts ≡ job.attempts)
execute_job_overwrites settings engine o id db job row db1 db2 exc c s found done raised class
      left =
    let (end, returned, stored, deserved, attempts, lease) =
      execute_job_ends settings engine o id db job row db1 db2 c s found in
    (end, stored, waits end (rw raised at deserved), attempts)
  where
    waits :
        (end : AgentJob)
        → Deserves settings job.attempts (raise exc) end.state
        → end.state ≡ retry_wait
    waits end d = ground arith

-- A due job that already has a row for its next attempt cannot be run: the unique constraint refuses
-- the attempt, `execute_job` raises, and the tables stay as they are, so the next sweep meets the
-- same job again.
pub execute_job_stuck :
    (settings : Settings) (engine : Engine) (o : Occasion) (id : ℕ) (db : Db) (job : AgentJob)
    (db1 : Db)
    → claim_job id settings.job_lease_seconds o.claimed_at db ≡ (some job, db1)
    → any (is_attempt job.job_id job.attempts) db.attempts ≡ true
    → execute_job settings engine o id db ≡ (raise integrity_error, db)
unfolding execute_job start_attempt apply_transition
execute_job_stuck settings engine o id db job db1 c dup =
    let (old, t, found, claimed, moved, stored) =
      claim_job-eq_some id settings.job_lease_seconds o.claimed_at db job db1 c in
    ground (arith, ap (λ (d : Db). d.attempts) stored)

-- A worker that dies costs an attempt and no more: when its lease is over, a sweep with room requeues
-- the job, which can then be claimed for one attempt more, however many it has had. The limit on
-- attempts is no part of this.
pub reclaim_unbounded :
    (id lease now later limit : ℕ) (locked : ℕ → Bool) (db : Db) (job : AgentJob) (db' : Db)
    → claim_job id lease now db ≡ (some job, db')
    → now + seconds lease ≤ later
    → locked id ≡ false
    → length db'.jobs ≤ limit
    → (again : AgentJob) × (db'' : Db) × (claim_job id lease later
          (reclaim_expired_leases locked limit later db').1
        ≡ (some again, db''))
      × (again.attempts ≡ job.attempts + 1)
unfolding requeue
reclaim_unbounded id lease now later limit locked db job db' c over unlocked fits =
    let (row, runs, leased, others) = claim_job_exclusive id lease now db job db' c in
    let (requeued, due) =
      reclaim_expired_leases_requeues locked limit later db' id job row (stale job runs leased)
        unlocked fits in
    claim_job_due id lease later (reclaim_expired_leases locked limit later db').1
      (requeue later job) requeued due
  where
    stale :
        (job : AgentJob)
        → job.state ≡ running
        → job.lease_expires_at ≡ some (now + seconds lease)
        → stale_row later job ≡ true
    stale job r l = unfold stale_row in ground arith
