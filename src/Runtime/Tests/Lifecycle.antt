-- ===== src/Runtime/Tests/Lifecycle.antt =====
-- The lifecycle of rows under a sequence of statements, at concrete inputs.
use edufurther_agent_be.Base.{◌≡◌, refl, none, some}
use edufurther_agent_be.Runtime.Retries.{queued}
use edufurther_agent_be.Runtime.Jobs.{AgentJob, Db, find_job, claim_job, reclaim_expired_leases}
use edufurther_agent_be.Runtime.Jobs.Keys.{UniqueKeys}
use edufurther_agent_be.Runtime.Jobs.Moves.{
  point, Moves, claims, reclaims, Statements, stop, then_next,
}
use edufurther_agent_be.Runtime.Jobs.Sequences.{Statements-Moves}
use edufurther_agent_be.Runtime.Tests.{row, two_jobs, two_jobs_keys, unlocked}

-- The waiting job is claimed, and both leases run out.
abbrev claimed_db : Db
claimed_db = (claim_job 2 300 100000000 two_jobs).1

abbrev swept_db : Db
swept_db = (reclaim_expired_leases unlocked 5 900000000 claimed_db).1

statements : Statements two_jobs swept_db
statements =
    then_next (claims 2 300 100000000 refl)
      (then_next (reclaims unlocked 5 900000000 refl) (stop refl))

Statements-Moves_example :
    (job' : AgentJob) × (find_job 2 swept_db.jobs ≡ some job')
    × Moves (point (row 2 queued none)) (point job')
    × UniqueKeys swept_db.jobs
unfolding find_job
Statements-Moves_example =
    Statements-Moves two_jobs swept_db 2 (row 2 queued none) statements two_jobs_keys refl
