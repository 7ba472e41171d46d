-- ===== src/Runtime/Tests/Runs.antt =====
-- The executions of a job and the sweeps of the test data.
use edufurther_agent_be.Base.{◌≡◌, refl, false, none, some, [], ◌∷◌, text_eq, contains_text, arith}
use edufurther_agent_be.Errors.{PyError, timeout_error, ok, raise}
use edufurther_agent_be.Runtime.Retries.{retry_wait, completed, retryable}
use edufurther_agent_be.Runtime.Jobs.{
  AgentJob, Db, find_job, claim_job, start_attempt, reclaim_expired_leases, integrity_error,
}
use edufurther_agent_be.Runtime.GraphRunner.{
  Engine, Occasion, execute_job, run_graph, snapshot_of, classify,
}
use edufurther_agent_be.Runtime.GraphRunner.Outcome.{Deserves, execute_job_ends}
use edufurther_agent_be.Runtime.GraphRunner.Interference.{
  execute_job_overwrites, execute_job_stuck, reclaim_unbounded,
}
use edufurther_agent_be.Runtime.Tests.{
  settings, unlocked, row, table, two_jobs, claimed_job, claimed_db, claimed,
}

abbrev timed_out : PyError
timed_out = record { kind = timeout_error; type_name = []; status_code = none; message = [] }

-- The graph of the use case `u`: it times out.
abbrev engine : Engine
engine = record {
  known_use_cases = (b'u' ∷ []) ∷ [];
  has_checkpoint = λ id. false;
  ainvoke = λ use_case id state. raise timed_out;
}

-- While the graph runs, another worker completes the second job.
abbrev completed_row : AgentJob
completed_row = record (row 2 completed none) { attempts = 3 }

abbrev interrupted : Occasion
interrupted = record {
  attempt_id = 70;
  claimed_at = 100000000;
  ended_at = 900000000;
  interim = λ db. table (completed_row ∷ []);
}

abbrev undisturbed : Occasion
undisturbed = record {
  attempt_id = 70;
  claimed_at = 100000000;
  ended_at = 130000000;
  interim = λ db. db;
}

abbrev started_db : Db
started_db = record claimed_db {
  attempts =
      record {
        attempt_id = 70;
        job_id = 2;
        attempt_number = 2;
        finished_at = none;
        outcome_state = none;
        error_class = none;
        error = none;
      }
      ∷ [];
}

started : start_attempt 70 claimed_job claimed_db ≡ ok started_db
unfolding start_attempt
started = refl

found_started : find_job 2 started_db.jobs ≡ some claimed_job
unfolding find_job
found_started = refl

found_completed : find_job 2 (completed_row ∷ []) ≡ some completed_row
unfolding find_job
found_completed = refl

failed_run : run_graph engine 2 (snapshot_of claimed_job) ≡ raise timed_out
unfolding run_graph snapshot_of text_eq contains_text
failed_run = refl

may_pass : classify timed_out ≡ retryable
unfolding classify
may_pass = refl

execute_job_ends_example :
    (end : AgentJob) × ((execute_job settings engine undisturbed 2 two_jobs).0 ≡ ok end.state)
    × (find_job 2 (execute_job settings engine undisturbed 2 two_jobs).1.jobs ≡ some end)
    × Deserves settings 2 (run_graph engine 2 (snapshot_of claimed_job)) end.state
    × (end.attempts ≡ 2)
    × (end.lease_expires_at ≡ none)
execute_job_ends_example =
    execute_job_ends settings engine undisturbed 2 two_jobs claimed_job claimed_job claimed_db
      started_db claimed started found_started

execute_job_overwrites_example :
    (end : AgentJob) × (find_job 2 (execute_job settings engine interrupted 2 two_jobs).1.jobs
      ≡ some end)
    × (end.state ≡ retry_wait)
    × (end.attempts ≡ 2)
execute_job_overwrites_example =
    execute_job_overwrites settings engine interrupted 2 two_jobs claimed_job completed_row
      claimed_db started_db timed_out claimed started found_completed refl failed_run may_pass
      (omega arith)

-- An attempt of that number has its row already.
abbrev spent_db : Db
spent_db = record two_jobs { attempts = started_db.attempts }

abbrev spent_claimed : Db
spent_claimed = record claimed_db { attempts = started_db.attempts }

claimed_again : claim_job 2 300 100000000 spent_db ≡ (some claimed_job, spent_claimed)
unfolding claim_job
claimed_again = refl

execute_job_stuck_example :
    execute_job settings engine undisturbed 2 spent_db ≡ (raise integrity_error, spent_db)
execute_job_stuck_example =
    execute_job_stuck settings engine undisturbed 2 spent_db claimed_job spent_claimed claimed_again
      refl

reclaim_unbounded_example :
    (again : AgentJob) × (db'' : Db) × (claim_job 2 300 400000000
        (reclaim_expired_leases unlocked 20 400000000 claimed_db).1
      ≡ (some again, db''))
    × (again.attempts ≡ 3)
reclaim_unbounded_example =
    reclaim_unbounded 2 300 100000000 400000000 20 unlocked two_jobs claimed_job claimed_db claimed
      (omega arith) refl (omega arith)
