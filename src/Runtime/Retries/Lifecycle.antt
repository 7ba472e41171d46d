-- ===== src/Runtime/Retries/Lifecycle.antt =====
-- What each transition of a job does, on every branch, and which failures are worth a retry.
use edufurther_agent_be.Base.{
  ℕ, ◌+◌, ◌≡◌, true, false, ◌||◌, Option, none, some, Text, take, arith, leb,
}
use edufurther_agent_be.Runtime.Retries.{
  JobState, running, retry_wait, failed_review, JobTransition, ErrorClass, is_claimable,
  is_permanent, has_passed, claim, fail, seconds, backoff_seconds, max_error_length,
}

-- A claim succeeds for a due job alone. It starts the next attempt under a lease of `lease` seconds.
pub claim_lem :
    (state : JobState) (attempts lease : ℕ) (next : Option ℕ) (now : ℕ) (t : JobTransition)
    → claim state attempts lease next now ≡ some t
    → (is_claimable state ≡ true)
      × (has_passed next now ≡ true)
      × (t.state ≡ running)
      × (t.attempts ≡ attempts + 1)
      × (t.lease_expires_at ≡ some (now + seconds lease))
      × (t.next_attempt_at ≡ none)
unfolding claim
claim_lem state attempts lease next now t h =
    (ground arith, ground arith, ground arith, ground arith, ground arith, ground arith)

-- No claim takes a job that is in a terminal state, running or parked for review.
pub claim_refused :
    (state : JobState) (attempts lease : ℕ) (next : Option ℕ) (now : ℕ)
    → is_claimable state ≡ false
    → claim state attempts lease next now ≡ none
unfolding claim
claim_refused state attempts lease next now h = ground arith

module _ (attempts : ℕ) (error : Text) (c : ErrorClass) (max_attempts now : ℕ) where
  abbrev failed : JobTransition
  failed = fail attempts error c max_attempts now

  -- A failure keeps the attempt count, releases the lease and stores a message within the limit.
  fail_keeps :
      (failed.attempts ≡ attempts)
      × (failed.lease_expires_at ≡ none)
      × (failed.last_error ≡ some (take max_error_length error))
  unfolding fail
  fail_keeps = ground arith

  fail_parks : is_permanent c || leb max_attempts attempts ≡ true → failed.state ≡ failed_review
  unfolding fail
  fail_parks h = ground arith

  fail_retries :
      is_permanent c || leb max_attempts attempts ≡ false
      → (failed.state ≡ retry_wait)
        × (failed.next_attempt_at ≡ some (now + seconds (backoff_seconds attempts)))
  unfolding fail
  fail_retries h = ground arith
