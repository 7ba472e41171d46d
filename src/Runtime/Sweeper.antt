-- ===== src/Runtime/Sweeper.antt =====
-- src/app/runtime/sweeper.py: one recovery pass, and the loop around it.
pub mod Pass
use edufurther_agent_be.Base.{
  ℕ, zero, suc, ◌+◌, Bool, true, false, Option, none, some, List, [], ◌∷◌, length, get_or,
  if◌then◌else◌,
}
use edufurther_agent_be.Errors.{PyError, Result, ok, raise}
use edufurther_agent_be.Settings.{Settings}
use edufurther_agent_be.Runtime.Retries.{
  JobState, completed, failed_review, cancelled, queued, running, retry_wait, waiting_review,
}
use edufurther_agent_be.Runtime.Jobs.{Db, reclaim_expired_leases, due_job_ids, count_due_jobs}
use edufurther_agent_be.Runtime.GraphRunner.{Engine, Occasion, execute_job}

-- The counters of the loop over the batch.
pub record Tally : Type 0 where
  pub completed_jobs : ℕ
  pub failed_jobs : ℕ

-- How the end of one execution is counted; a crash counts as a failure.
unfoldable pub count_state : JobState → Tally → Tally
count_state completed t = record t { completed_jobs = t.completed_jobs + 1 }
count_state failed_review t = record t { failed_jobs = t.failed_jobs + 1 }
count_state cancelled t = record t { failed_jobs = t.failed_jobs + 1 }
count_state _ t = t

unfoldable pub count_result : Result JobState → Tally → Tally
unfolding count_state
count_result (ok state) t = count_state state t
count_result (raise exc) t = record t { failed_jobs = t.failed_jobs + 1 }

pub record SweepResult : Type 0 where
  pub reclaimed : ℕ
  pub picked_up : ℕ
  pub completed : ℕ
  pub failed : ℕ
  pub remaining : ℕ

-- The rows that other transactions hold when the two selections are made, and the moments.
pub record Sweep : Type 0 where
  pub locked : ℕ → Bool
  pub started_at : ℕ
  pub selected_at : ℕ
  pub counted_at : ℕ
  pub occasions : ℕ → Occasion

-- One turn of the loop: whether the stop event is set once the wait is over, and the pass to make.
pub record Turn : Type 0 where
  pub stopped : Bool
  pub sweep : Sweep

module _ (settings : Settings) (engine : Engine) where
  -- The loop over the batch. `occasions` gives each execution its moments and its interference.
  unfoldable pub run_batch : (ℕ → Occasion) → List ℕ → Tally → Db → Tally × Db
  run_batch occasions [] t db = (t, db)
  run_batch occasions (id ∷ ids) t db =
      let (result, db') = execute_job settings engine (occasions id) id db in
      run_batch occasions ids (count_result result t) db'

  unfoldable pub sweep_once : Sweep → Option ℕ → Db → SweepResult × Db
  sweep_once s limit db =
      let batch = get_or limit settings.job_sweep_batch_limit in
      let (reclaimed, db1) = reclaim_expired_leases s.locked batch s.started_at db in
      let job_ids = due_job_ids s.locked batch s.selected_at db1 in
      let (t, db2) =
        run_batch s.occasions job_ids (record { completed_jobs = 0; failed_jobs = 0 }) db1 in
      (
        record {
          reclaimed = reclaimed;
          picked_up = length job_ids;
          completed = t.completed_jobs;
          failed = t.failed_jobs;
          remaining = count_due_jobs s.counted_at db2;
        },
        db2,
      )

  -- `run_sweeper`, over the turns of its life.
  unfoldable pub run_sweeper : List Turn → Db → Db
  unfolding sweep_once
  run_sweeper [] db = db
  run_sweeper (turn ∷ turns) db =
      let rest = run_sweeper turns (sweep_once turn.sweep none db).1 in
      if turn.stopped then db else rest
