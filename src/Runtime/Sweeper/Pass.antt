-- ===== src/Runtime/Sweeper/Pass.antt =====
-- The accounts of a recovery pass.
use edufurther_agent_be.Base.{
  ℕ, suc, ◌+◌, ◌≤◌, ◌≡◌, refl, Option, List, [], ◌∷◌, ◌++◌, length, get_or, arith,
}
use edufurther_agent_be.Errors.{Result, ok, raise}
use edufurther_agent_be.Settings.{Settings}
use edufurther_agent_be.Runtime.Retries.{JobState}
use edufurther_agent_be.Runtime.Jobs.{Db, due_job_ids, due_row, reclaim_expired_leases}
use edufurther_agent_be.Runtime.Jobs.Due.{length-select_ids}
use edufurther_agent_be.Runtime.Jobs.Leases.{reclaim_expired_leases_le_limit}
use edufurther_agent_be.Runtime.GraphRunner.{Engine, Occasion, execute_job}
use edufurther_agent_be.Runtime.Sweeper.{Tally, count_result, run_batch, Sweep, sweep_once}

count_result-le :
    (r : Result JobState) (t : Tally)
    → (count_result r t).completed_jobs + (count_result r t).failed_jobs
      ≤ suc (t.completed_jobs + t.failed_jobs)
unfolding count_result
count_result-le (ok state) t = ground arith
count_result-le (raise exc) t = ground arith

module _ (settings : Settings) (engine : Engine) (occasions : ℕ → Occasion) where
  run_batch-le :
      (ids : List ℕ) (t : Tally) (db : Db)
      → let (t', db') = run_batch settings engine occasions ids t db in
        t'.completed_jobs + t'.failed_jobs ≤ length ids + (t.completed_jobs + t.failed_jobs)
  unfolding run_batch
  run_batch-le [] t db = omega arith
  run_batch-le (id ∷ ids) t db =
      let (result, db') = execute_job settings engine (occasions id) id db in
      omega (arith, run_batch-le ids (count_result result t) db', count_result-le result t)

  -- A batch runs to its end whatever its items do: it is the run of its first part, crashed or not,
  -- followed by that of the rest, from the tables and the counts that the first part left.
  pub run_batch-append :
      (ids more : List ℕ) (t : Tally) (db : Db)
      → run_batch settings engine occasions (ids ++ more) t db
        ≡ run_batch settings engine occasions more
            (run_batch settings engine occasions ids t db).0
            (run_batch settings engine occasions ids t db).1
  unfolding run_batch
  run_batch-append [] more t db = refl
  run_batch-append (id ∷ ids) more t db =
      let (result, db') = execute_job settings engine (occasions id) id db in
      run_batch-append ids more (count_result result t) db'

-- A pass reclaims at most its limit, picks up at most its limit, and counts each job that it picked
-- up at most once, as completed or as failed.
pub sweep_once_counts :
    (settings : Settings) (engine : Engine) (s : Sweep) (limit : Option ℕ) (db : Db)
    → let r = (sweep_once settings engine s limit db).0 in
      let batch = get_or limit settings.job_sweep_batch_limit in
      (r.reclaimed ≤ batch) × (r.picked_up ≤ batch) × (r.completed + r.failed ≤ r.picked_up)
unfolding sweep_once due_job_ids
sweep_once_counts settings engine s limit db =
    let batch = get_or limit settings.job_sweep_batch_limit in
    let db1 = (reclaim_expired_leases s.locked batch s.started_at db).1 in
    let job_ids = due_job_ids s.locked batch s.selected_at db1 in
    (
      reclaim_expired_leases_le_limit s.locked batch s.started_at db,
      length-select_ids s.locked batch (due_row s.selected_at) db1.jobs,
      omega (
        arith,
        run_batch-le settings engine s.occasions job_ids
            (record { completed_jobs = 0; failed_jobs = 0 }) db1,
      ),
    )
