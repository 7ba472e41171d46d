-- ===== src/Runtime/Jobs/Sequences.antt =====
-- Sequences of statements: each row moves along its lifecycle, and keys stay unique.

use edufurther_agent_be.Base.{ℕ, ◌≡◌, refl, sym, ap, ◌⊎◌, inl, inr, Bool, false, some}
use edufurther_agent_be.Runtime.Retries.{JobTransition, is_claimable}
use edufurther_agent_be.Runtime.Jobs.{
  AgentJob, Db, find_job, apply, has_id, is_running, requeue, claim_job, apply_transition,
  reclaim_expired_leases, renew_lease,
}
use edufurther_agent_be.Runtime.Jobs.Rows.{apply-job_id, apply-idempotency_key}
use edufurther_agent_be.Runtime.Jobs.Keys.{UniqueKeys, enqueue_job-UniqueKeys}
use edufurther_agent_be.Runtime.Jobs.Claims.{claim_job-eq_some}
use edufurther_agent_be.Runtime.Jobs.Moves.{
  Point, point, Move, claimed, requeued, Moves, here, moved, Statement, enqueues, claims, reclaims,
  renews, Statements, stop, then_next, UniqueKeys-update_where, claim_job-cases, requeue-id,
  requeue-key, enqueue_job-Stays, claim_job-Stays, reclaim-Stays, renew_lease-Stays, Stays,
}

apply_transition-UniqueKeys :
    (id : ℕ) (t : JobTransition) (db : Db)
    → UniqueKeys db.jobs
    → UniqueKeys (apply_transition id t db).jobs
unfolding apply_transition
apply_transition-UniqueKeys id t db u =
    UniqueKeys-update_where (has_id id) (apply t) db.jobs (apply-job_id t) (apply-idempotency_key t)
      u

claim_job-UniqueKeys :
    (id lease now : ℕ) (db : Db)
    → UniqueKeys db.jobs
    → UniqueKeys (claim_job id lease now db).1.jobs
claim_job-UniqueKeys id lease now db u = elim (claim_job-cases id lease now db) [
  | inl e ↦ rw e u
  | inr (job, db', e) ↦
      let (old, t, there, claimed_by, taken, stored) =
        claim_job-eq_some id lease now db job db' e in
      rw (e, stored) (apply_transition-UniqueKeys id t db u)
]

reclaim-UniqueKeys :
    (locked : ℕ → Bool) (limit now : ℕ) (db : Db)
    → UniqueKeys db.jobs
    → UniqueKeys (reclaim_expired_leases locked limit now db).1.jobs
unfolding reclaim_expired_leases
reclaim-UniqueKeys locked limit now db u =
    UniqueKeys-update_where _ (requeue now) db.jobs (requeue-id now) (requeue-key now) u

renew_lease-UniqueKeys :
    (id lease now : ℕ) (db : Db)
    → UniqueKeys db.jobs
    → UniqueKeys (renew_lease id lease now db).jobs
unfolding renew_lease
renew_lease-UniqueKeys id lease now db u =
    UniqueKeys-update_where _ _ db.jobs (λ x. refl) (λ x. refl) u

Statement-UniqueKeys : (db db' : Db) → Statement db db' → UniqueKeys db.jobs → UniqueKeys db'.jobs
Statement-UniqueKeys db db' (enqueues fresh r new e) u =
    rw e (enqueue_job-UniqueKeys fresh r db u new)
Statement-UniqueKeys db db' (claims id lease now e) u =
    rw e (claim_job-UniqueKeys id lease now db u)
Statement-UniqueKeys db db' (reclaims locked limit now e) u =
    rw e (reclaim-UniqueKeys locked limit now db u)
Statement-UniqueKeys db db' (renews id lease now e) u =
    rw e (renew_lease-UniqueKeys id lease now db u)

Statement-Stays :
    (db db' : Db) (id : ℕ) (job : AgentJob)
    → Statement db db'
    → UniqueKeys db.jobs
    → find_job id db.jobs ≡ some job
    → Stays id job db'
Statement-Stays db db' id job (enqueues fresh r new e) u found =
    rw e (enqueue_job-Stays fresh r db id job found)
Statement-Stays db db' id job (claims k lease now e) u found =
    rw e (claim_job-Stays k lease now db id job found)
Statement-Stays db db' id job (reclaims locked limit now e) u found =
    rw e (reclaim-Stays locked limit now db id job u found)
Statement-Stays db db' id job (renews k lease now e) u found =
    rw e (renew_lease-Stays k lease now db id job found)

-- A first move or none in front of others.
and_then : {p q r : Point} → (q ≡ p) ⊎ Move p q → Moves q r → Moves p r
and_then (inl e) rest = rw (sym e) rest
and_then (inr m) rest = moved m rest

-- Whatever submissions, claims, sweeps and renewals of leases run, in whatever order and at whatever
-- times, where the keys are unique at first and each submission brings a fresh id: a row stays in the
-- table under its id, it has gone from its state and attempts along moves of the lifecycle, each of them
-- a claim that counts one attempt more or a requeue of a running row on the same attempt, and the keys
-- are unique still.
pub Statements-Moves :
    (db db' : Db) (id : ℕ) (job : AgentJob)
    → Statements db db'
    → UniqueKeys db.jobs
    → find_job id db.jobs ≡ some job
    → (job' : AgentJob) × (find_job id db'.jobs ≡ some job')
      × Moves (point job) (point job')
      × UniqueKeys db'.jobs
Statements-Moves db db' id job (stop e) u found = (job, rw e found, here refl, rw e u)
Statements-Moves db db' id job (then_next {db' = next} first rest) u found =
    let (job₁, found₁, step) = Statement-Stays db next id job first u found in
    let (job', found', moves, unique) =
      Statements-Moves next db' id job₁ rest (Statement-UniqueKeys db next first u) found₁ in
    (job', found', and_then step moves, unique)

-- From a state that is neither waiting nor running there is no move.
Moves-settled :
    (p q : Point) → is_claimable p.state ≡ false → is_running p.state ≡ false → Moves p q → q ≡ p
Moves-settled p q c r (here e) = sym e
Moves-settled p q c r (moved (claimed w s n) rest) = cc
Moves-settled p q c r (moved (requeued w s n) rest) = cc (ap is_running w)

-- Under such statements a job that has ended, or is parked for review, keeps its state and its attempts.
pub Statements-settled :
    (db db' : Db) (id : ℕ) (job : AgentJob)
    → Statements db db'
    → UniqueKeys db.jobs
    → find_job id db.jobs ≡ some job
    → is_claimable job.state ≡ false
    → is_running job.state ≡ false
    → (job' : AgentJob) × (find_job id db'.jobs ≡ some job') × (point job' ≡ point job)
Statements-settled db db' id job statements u found c r =
    let (job', found', moves, unique) = Statements-Moves db db' id job statements u found in
    (job', found', Moves-settled (point job) (point job') c r moves)
