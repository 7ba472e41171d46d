-- ===== src/Runtime/Retries.antt =====
-- src/app/runtime/retries.py: the states of a job and the arithmetic of its transitions. A time is
-- a number of microseconds, the resolution of `datetime`.
pub mod Backoff
pub mod Lifecycle
use edufurther_agent_be.Base.{
  ℕ, ◌+◌, ◌-◌, ◌*◌, ◌^◌, min, Bool, true, false, ◌&&◌, ◌||◌, Option, none, some, List, [], ◌∷◌,
  Text, lit, lower, occurs_in, any, take, ltb, leb, ◌==◌, if◌then◌else◌,
}
use edufurther_agent_be.Errors.{PyError, ErrorKind, timeout_error}

pub data JobState : Type 0 where
  queued running retry_wait waiting_review completed failed_review cancelled : JobState

-- `TERMINAL_STATES`
abbrev pub is_terminal : JobState → Bool
is_terminal completed = true
is_terminal failed_review = true
is_terminal cancelled = true
is_terminal _ = false

-- `CLAIMABLE_STATES`
abbrev pub is_claimable : JobState → Bool
is_claimable queued = true
is_claimable retry_wait = true
is_claimable _ = false

pub data ErrorClass : Type 0 where
  retryable permanent : ErrorClass

pub record JobTransition : Type 0 where
  pub state : JobState
  pub attempts : ℕ
  pub next_attempt_at : Option ℕ
  pub lease_expires_at : Option ℕ
  pub last_error : Option Text

abbrev pub base_backoff_seconds : ℕ
base_backoff_seconds = 60

abbrev pub max_backoff_seconds : ℕ
max_backoff_seconds = 21600

abbrev pub max_error_length : ℕ
max_error_length = 2000

-- `timedelta(seconds=s)`
abbrev pub seconds : ℕ → ℕ
seconds s = s * 1000000

unfoldable pub backoff_seconds : ℕ → ℕ
backoff_seconds attempts =
    if ltb attempts 1
    then base_backoff_seconds
    else min (base_backoff_seconds * 2 ^ (attempts - 1)) max_backoff_seconds

unfoldable pub lease_expiry : ℕ → ℕ → ℕ
lease_expiry lease_seconds now = now + seconds lease_seconds

-- `moment is None or moment <= now`
abbrev pub has_passed : Option ℕ → ℕ → Bool
has_passed none now = true
has_passed (some moment) now = leb moment now

unfoldable pub is_lease_expired : Option ℕ → ℕ → Bool
is_lease_expired lease_expires_at now = has_passed lease_expires_at now

unfoldable pub is_due : JobState → Option ℕ → ℕ → Bool
is_due state next_attempt_at now = is_claimable state && has_passed next_attempt_at now

unfoldable pub claim : JobState → ℕ → ℕ → Option ℕ → ℕ → Option JobTransition
unfolding is_due lease_expiry
claim state attempts lease_seconds next_attempt_at now =
    if is_due state next_attempt_at now
    then some (record {
      state = running;
      attempts = attempts + 1;
      next_attempt_at = none;
      lease_expires_at = some (lease_expiry lease_seconds now);
      last_error = none;
    })
    else none

-- A transition that sets nothing but the state.
abbrev plain : JobState → ℕ → JobTransition
plain state attempts = record {
  state = state;
  attempts = attempts;
  next_attempt_at = none;
  lease_expires_at = none;
  last_error = none;
}

unfoldable pub succeed : ℕ → JobTransition
succeed attempts = plain completed attempts

unfoldable pub await_review : ℕ → JobTransition
await_review attempts = plain waiting_review attempts

unfoldable pub cancel : ℕ → JobTransition
cancel attempts = plain cancelled attempts

-- `error_class is ErrorClass.PERMANENT`
abbrev pub is_permanent : ErrorClass → Bool
is_permanent permanent = true
is_permanent retryable = false

unfoldable pub fail : ℕ → Text → ErrorClass → ℕ → ℕ → JobTransition
fail attempts error error_class max_attempts now =
    let truncated = take max_error_length error in
    if is_permanent error_class || leb max_attempts attempts
    then record (plain failed_review attempts) { last_error = some truncated }
    else record {
      state = retry_wait;
      attempts = attempts;
      next_attempt_at = some (now + seconds (backoff_seconds attempts));
      lease_expires_at = none;
      last_error = some truncated;
    }

-- `isinstance(exc, TimeoutError)`
abbrev pub is_timeout : ErrorKind → Bool
is_timeout timeout_error = true
is_timeout _ = false

-- The answer of an upstream: a server error, a timeout or a rate limit may pass.
unfoldable pub class_of_status : ℕ → ErrorClass
class_of_status status =
    if leb 500 status || (status == 408 || status == 429) then retryable else permanent

unfoldable pub transient_markers : List Text
transient_markers =
    lit "timeout"
    ∷ lit "connect"
    ∷ lit "ratelimit"
    ∷ lit "serviceunavailable"
    ∷ lit "temporar"
    ∷ lit "unavailable"
    ∷ lit "remoteprotocol"
    ∷ lit "readerror"
    ∷ lit "writeerror"
    ∷ lit "poolerror"
    ∷ []

unfoldable pub class_of_name : Text → ErrorClass
class_of_name type_name =
    let name = lower type_name in
    if any (λ marker. occurs_in marker name) transient_markers then retryable else permanent

unfoldable pub classify_error : PyError → ErrorClass
unfolding class_of_status class_of_name
classify_error exc = if is_timeout exc.kind then retryable else elim exc.status_code [
  | some status ↦ class_of_status status
  | none ↦ class_of_name exc.type_name
]
