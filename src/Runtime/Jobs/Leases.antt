-- ===== src/Runtime/Jobs/Leases.antt =====
-- Expired leases: what reclaiming changes, what it leaves alone, and what a renewal protects.
use mathlib.Core.Option
use edufurther_agent_be.Base.{
  ℕ, ◌+◌, ◌≤◌, ◌<◌, ◌≡◌, refl, Bool, true, false, ◌&&◌, some, List, [], ◌∷◌, In, any, length, arith,
  ◌==◌, Bool-cases, inl, inr,
}
use edufurther_agent_be.Runtime.Retries.{running, seconds, lease_expiry}
use edufurther_agent_be.Runtime.Jobs.{
  AgentJob, Db, find_job, select_ids, stale_row, reclaim_expired_leases, requeue, id_in,
  renew_lease, has_id, is_running, due_row,
}
use edufurther_agent_be.Runtime.Jobs.Keys.{UniqueKeys}
use edufurther_agent_be.Runtime.Jobs.Rows.{find_job-update_where, find_job-has_id, set_row}
use edufurther_agent_be.Runtime.Jobs.Due.{
  In-select_ids, select_ids_all, find_job-In, In-find_job, length-select_ids, length-keep, free,
}

pub any-In : (id : ℕ) (ids : List ℕ) → any (λ k. id == k) ids ≡ true → In id ids
any-In id [] h = cc
any-In id (k ∷ ids) h = ground (arith, any-In id ids)

In-any : (id : ℕ) (ids : List ℕ) → In id ids → any (λ k. id == k) ids ≡ true
In-any id [] h = absurd h
In-any id (k ∷ ids) h = ground (arith, In-any id ids)

module _ (locked : ℕ → Bool) (limit now : ℕ) (db : Db) where
  abbrev picked : List ℕ
  picked = select_ids locked limit (stale_row now) db.jobs

  abbrev after : Db
  after = (reclaim_expired_leases locked limit now db).1

  requeue-job_id : (job : AgentJob) → (requeue now job).job_id ≡ job.job_id
  unfolding requeue
  requeue-job_id job = refl

  find_job-reclaim :
      (id : ℕ)
      → find_job id after.jobs
        ≡ Option.map (set_row (id_in picked) (requeue now)) (find_job id db.jobs)
  unfolding reclaim_expired_leases
  find_job-reclaim id = find_job-update_where id (id_in picked) (requeue now) db.jobs requeue-job_id

  -- A row that is not running, or whose lease still holds, stays as it is.
  pub reclaim_expired_leases_spares :
      (id : ℕ) (job : AgentJob)
      → UniqueKeys db.jobs
      → find_job id db.jobs ≡ some job
      → stale_row now job ≡ false
      → find_job id after.jobs ≡ some job
  reclaim_expired_leases_spares id job u found live = elim (Bool-cases (id_in picked job)) [
    | inl y ↦ absurd (stale_of_picked (any-In job.job_id picked y))
    | inr n ↦ rw (find_job-reclaim id) (rw found (rw n))
  ]
    where
      stale_of_picked : In job.job_id picked → ⊥
      stale_of_picked m =
          let (other, inside, i, t) =
            In-select_ids locked limit (stale_row now) db.jobs job.job_id m in
          ground (arith, find_job-In other db.jobs u inside, find_job-has_id id db.jobs job found)

  pub reclaim_expired_leases_requeues :
      (id : ℕ) (job : AgentJob)
      → find_job id db.jobs ≡ some job
      → stale_row now job ≡ true
      → locked id ≡ false
      → length db.jobs ≤ limit
      → (find_job id after.jobs ≡ some (requeue now job)) × (due_row now (requeue now job) ≡ true)
  unfolding requeue due_row
  reclaim_expired_leases_requeues id job found stale unlocked fits =
      (rw (find_job-reclaim id) (rw found (rw (In-any job.job_id picked chosen))), ground arith)
    where
      same : job.job_id ≡ id
      same = find_job-has_id id db.jobs job found

      chosen : In job.job_id picked
      chosen =
          select_ids_all locked limit (stale_row now) db.jobs job.job_id
            (omega (arith, length-keep (free locked (stale_row now)) db.jobs))
            (job, In-find_job id db.jobs job found, refl, rw stale (rw same (rw unlocked)))

  -- The count that is reported never exceeds the limit.
  pub reclaim_expired_leases_le_limit : (reclaim_expired_leases locked limit now db).0 ≤ limit
  unfolding reclaim_expired_leases
  reclaim_expired_leases_le_limit = length-select_ids locked limit (stale_row now) db.jobs

renewed : ℕ → ℕ → AgentJob → AgentJob
renewed lease now job = record job { lease_expires_at = some (lease_expiry lease now) }

find_job-renew_lease :
    (id lease now : ℕ) (db : Db) (job : AgentJob)
    → find_job id db.jobs ≡ some job
    → job.state ≡ running
    → find_job id (renew_lease id lease now db).jobs ≡ some (renewed lease now job)
unfolding renew_lease renewed
find_job-renew_lease id lease now db job found runs =
    rw
      (find_job-update_where id (λ j. has_id id j && is_running j.state) (renewed lease now) db.jobs
        (λ j. refl))
      (rw found (ground (arith, find_job-has_id id db.jobs job found)))

renewed-live :
    (lease now later : ℕ) (job : AgentJob)
    → later < now + seconds lease
    → stale_row later (renewed lease now job) ≡ false
unfolding renewed stale_row lease_expiry
renewed-live lease now later job h = ground arith

-- A sweep that comes before the renewed lease is over leaves a running row as the renewal left it:
-- still running, on the same attempt.
pub renew_lease_protects :
    (id lease now later limit : ℕ) (locked : ℕ → Bool) (db : Db) (job : AgentJob)
    → UniqueKeys (renew_lease id lease now db).jobs
    → find_job id db.jobs ≡ some job
    → job.state ≡ running
    → later < now + seconds lease
    → find_job id (reclaim_expired_leases locked limit later (renew_lease id lease now db)).1.jobs
      ≡ some (record job { lease_expires_at = some (lease_expiry lease now) })
unfolding renewed
renew_lease_protects id lease now later limit locked db job u found runs early =
    reclaim_expired_leases_spares locked limit later (renew_lease id lease now db) id
      (renewed lease now job) u (find_job-renew_lease id lease now db job found runs)
      (renewed-live lease now later job early)
