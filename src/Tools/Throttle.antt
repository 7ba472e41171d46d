-- ===== src/Tools/Throttle.antt =====
-- src/app/tools/throttle.py: the pacing of the requests to one host. A turn has the time at which it
-- gets the host's lock and how long its request takes, whether that fails or not.
pub mod Spacing
use edufurther_agent_be.Base.{
  ℕ, ◌+◌, ◌-◌, Option, none, some, List, [], ◌∷◌, Text, lit, text_eq, lower, is_empty, ◌==◌,
  if◌then◌else◌,
}
use edufurther_agent_be.Errors.{PyError, value_error, Result, ok, raise}
use edufurther_agent_be.Python.Urls.{UrlLib, urlsplit, hostname}

-- `_HOSTS`: the time of the last request to each host.
abbrev pub Hosts : Type 0
Hosts = List (Text × ℕ)

pub record Turn : Type 0 where
  pub url : Text
  pub now : ℕ
  pub taken : ℕ

-- A request, once it was made.
pub record Span : Type 0 where
  pub host : Text
  pub start : ℕ
  pub finish : ℕ

-- `_slot`, where a host that was not seen has the time 0
unfoldable pub slot : Text → Hosts → ℕ
slot host [] = 0
slot host ((h, last) ∷ hosts) = let rest = slot host hosts in if text_eq h host then last else rest

-- `last[0] = time.monotonic()`
unfoldable pub stamp : Text → ℕ → Hosts → Hosts
stamp host time [] = (host, time) ∷ []
stamp host time ((h, last) ∷ hosts) =
    let rest = stamp host time hosts in
    if text_eq h host then (h, time) ∷ hosts else (h, last) ∷ rest

-- `min_interval_seconds - (time.monotonic() - last[0])`, and 0 where that is less
unfoldable pub wait_of : ℕ → ℕ → ℕ → ℕ
wait_of interval last now = (interval + last) - now

-- `(urlsplit(url).hostname or "").lower()`; `none` is a `ValueError`.
unfoldable pub paced_host : UrlLib → Text → Option Text
paced_host lib url = elim (urlsplit lib url) [
  | none ↦ none
  | some parts ↦ some (lower (hostname parts))
]

unfoldable pub take_turn : ℕ → Text → Turn → Hosts → Span × Hosts
unfolding slot stamp wait_of
take_turn interval host turn hosts =
    let start = turn.now + wait_of interval (slot host hosts) turn.now in
    (
      record { host = host; start = start; finish = start + turn.taken },
      stamp host (start + turn.taken) hosts,
    )

-- What becomes of a turn whose URL has this host; without one it is not paced.
unfoldable pub pace_host : ℕ → Turn → Hosts → Option Text → Result (Option Span) × Hosts
unfolding take_turn
pace_host interval turn hosts none = (
  raise (record {
    kind = value_error;
    type_name = lit "ValueError";
    status_code = none;
    message = [];
  }),
  hosts,
)
pace_host interval turn hosts (some host) =
    if is_empty host
    then (ok none, hosts)
    else let (span, hosts') = take_turn interval host turn hosts in (ok (some span), hosts')

unfoldable pub host_pace : UrlLib → ℕ → Turn → Hosts → Result (Option Span) × Hosts
unfolding pace_host paced_host
host_pace lib interval turn hosts =
    if interval == 0
    then (ok none, hosts)
    else pace_host interval turn hosts (paced_host lib turn.url)

-- The requests that were paced, in front of those of later turns.
abbrev pub with_span : Result (Option Span) → List Span → List Span
with_span (ok (some span)) spans = span ∷ spans
with_span _ spans = spans

-- Turns in the order in which they get their locks.
unfoldable pub run_turns : UrlLib → ℕ → List Turn → Hosts → List Span
unfolding host_pace
run_turns lib interval [] hosts = []
run_turns lib interval (turn ∷ turns) hosts =
    let (result, hosts') = host_pace lib interval turn hosts in
    with_span result (run_turns lib interval turns hosts')
