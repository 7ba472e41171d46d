-- ===== src/Tools/Throttle/Spacing.antt =====
-- How far apart the requests to one host are.
use edufurther_agent_be.Base.{
  ℕ, ◌+◌, ◌≤◌, ◌≡◌, refl, sym, ap, ◌∙◌, ◌⊎◌, inl, inr, Bool, false, Option, none, some, List, [],
  ◌∷◌, Text, text_eq, text_eq→eq, text_eq_refl, All, arith, is_empty, ◌==◌, if◌then◌else◌,
  Bool-cases, not, ◌&&◌, length, keep, suc,
}
use edufurther_agent_be.Errors.{Result, ok}
use edufurther_agent_be.Python.Urls.{UrlLib}
use edufurther_agent_be.Tools.Throttle.{
  Hosts, Turn, Span, slot, stamp, wait_of, take_turn, pace_host, paced_host, host_pace, with_span,
  run_turns,
}

-- A request to the host `h` that starts no sooner than `from`.
abbrev pub StartsFrom : Text → ℕ → Span → Type 0
StartsFrom h from span = span.host ≡ h → from ≤ span.start

-- Of two requests to one host the later starts an interval behind the end of the earlier.
abbrev pub Spaced : ℕ → List Span → Type 0
Spaced interval [] = Unit
Spaced interval (span ∷ spans) =
    All (StartsFrom span.host (span.finish + interval)) spans × Spaced interval spans

slot-stamp :
    (h g : Text) (time : ℕ) (hosts : Hosts)
    → slot h (stamp g time hosts) ≡ (if text_eq g h then time else slot h hosts)
unfolding slot stamp
slot-stamp h g time [] = ground arith
slot-stamp h g time ((k, last) ∷ hosts) = elim (Bool-cases (text_eq k g)) [
  | inl y ↦ rw (text_eq→eq k g y, text_eq_refl g) (ground arith)
  | inr n ↦ elim (Bool-cases (text_eq g h)) [
    | inl e ↦
        let far : text_eq k h ≡ false = ap (text_eq k) (sym (text_eq→eq g h e)) ∙ n in
        rw (n, slot, far, slot-stamp h g time hosts, e) refl
    | inr d ↦ rw (n, slot, slot-stamp h g time hosts, d) refl
  ]
]

slot-take_turn :
    (interval : ℕ) (h host : Text) (turn : Turn) (hosts : Hosts)
    → slot h hosts ≤ slot h (take_turn interval host turn hosts).1
unfolding take_turn wait_of
slot-take_turn interval h host turn hosts = elim (Bool-cases (text_eq host h)) [
  | inl y ↦ rw (slot-stamp h host _ hosts, y, text_eq→eq host h y) (omega arith)
  | inr n ↦ rw (slot-stamp h host _ hosts, n) (omega arith)
]

take_turn-finish :
    (interval : ℕ) (host : Text) (turn : Turn) (hosts : Hosts)
    → slot host (take_turn interval host turn hosts).1
      ≡ (take_turn interval host turn hosts).0.finish
unfolding take_turn
take_turn-finish interval host turn hosts =
    rw (slot-stamp host host _ hosts, text_eq_refl host) refl

take_turn-start :
    (interval : ℕ) (host : Text) (turn : Turn) (hosts : Hosts)
    → slot host hosts + interval ≤ (take_turn interval host turn hosts).0.start
unfolding take_turn wait_of
take_turn-start interval host turn hosts = omega arith

take_turn-host :
    (interval : ℕ) (host : Text) (turn : Turn) (hosts : Hosts)
    → (take_turn interval host turn hosts).0.host ≡ host
unfolding take_turn
take_turn-host interval host turn hosts = refl

module _ (lib : UrlLib) (interval : ℕ) where
  -- What a turn does: it makes no request and leaves the times, or it is a turn of some host.
  abbrev Turns : Turn → Hosts → Result (Option Span) × Hosts → Type 0
  Turns turn hosts made =
      (((spans : List Span) → with_span made.0 spans ≡ spans) × (made.1 ≡ hosts))
      ⊎ ((host : Text) × (made ≡ (
        ok (some (take_turn interval host turn hosts).0),
        (take_turn interval host turn hosts).1,
      )))

  pace_host-Turns :
      (turn : Turn) (hosts : Hosts) (found : Option Text)
      → Turns turn hosts (pace_host interval turn hosts found)
  unfolding pace_host
  pace_host-Turns turn hosts none = inl (λ spans. refl, refl)
  pace_host-Turns turn hosts (some host) = elim (Bool-cases (is_empty host)) [
    | inl y ↦ rw y (inl (λ spans. refl, refl))
    | inr n ↦ rw n (inr (host, refl))
  ]

  host_pace-Turns :
      (turn : Turn) (hosts : Hosts) → Turns turn hosts (host_pace lib interval turn hosts)
  unfolding host_pace
  host_pace-Turns turn hosts = elim (Bool-cases (interval == 0)) [
    | inl y ↦ rw y (inl (λ spans. refl, refl))
    | inr n ↦ rw n (pace_host-Turns turn hosts (paced_host lib turn.url))
  ]

  start-StartsFrom :
      (h : Text) (from : ℕ) (host : Text) (turn : Turn) (hosts : Hosts)
      → from ≤ slot h hosts + interval
      → StartsFrom h from (take_turn interval host turn hosts).0
  start-StartsFrom h from host turn hosts b same =
      let there : host ≡ h = sym (take_turn-host interval host turn hosts) ∙ same in
      let bound = take_turn-start interval host turn hosts in
      let own : slot host hosts ≡ slot h hosts = ap (λ (k : Text). slot k hosts) there in
      omega (arith, b, bound, own)

  step-StartsFrom :
      (h : Text) (from : ℕ) (turn : Turn) (hosts : Hosts) (made : Result (Option Span) × Hosts)
      (rest : Hosts → List Span)
      → Turns turn hosts made
      → ((hosts' : Hosts) → from ≤ slot h hosts' + interval → All (StartsFrom h from) (rest hosts'))
      → from ≤ slot h hosts + interval
      → All (StartsFrom h from) (with_span made.0 (rest made.1))
  step-StartsFrom h from turn hosts made rest (inl (skip, same)) later b =
      rw (skip (rest made.1)) (later made.1 (rw same b))
  step-StartsFrom h from turn hosts made rest (inr (host, e)) later b =
      let more = slot-take_turn interval h host turn hosts in
      rw e (
        start-StartsFrom h from host turn hosts b,
        later (take_turn interval host turn hosts).1 (omega (arith, b, more)),
      )

  run_turns-StartsFrom :
      (h : Text) (from : ℕ) (turns : List Turn) (hosts : Hosts)
      → from ≤ slot h hosts + interval
      → All (StartsFrom h from) (run_turns lib interval turns hosts)
  unfolding run_turns
  run_turns-StartsFrom h from [] hosts b = tt
  run_turns-StartsFrom h from (turn ∷ turns) hosts b =
      step-StartsFrom h from turn hosts (host_pace lib interval turn hosts)
        (run_turns lib interval turns) (host_pace-Turns turn hosts)
        (run_turns-StartsFrom h from turns) b

  step-Spaced :
      (turn : Turn) (turns : List Turn) (hosts : Hosts) (made : Result (Option Span) × Hosts)
      → Turns turn hosts made
      → ((hosts' : Hosts) → Spaced interval (run_turns lib interval turns hosts'))
      → Spaced interval (with_span made.0 (run_turns lib interval turns made.1))
  step-Spaced turn turns hosts made (inl (skip, same)) later =
      rw (skip (run_turns lib interval turns made.1)) (later made.1)
  step-Spaced turn turns hosts made (inr (host, e)) later =
      let span = (take_turn interval host turn hosts).0 in
      let hosts' = (take_turn interval host turn hosts).1 in
      let own : slot span.host hosts' ≡ span.finish =
        ap (λ (k : Text). slot k hosts') (take_turn-host interval host turn hosts)
        ∙ take_turn-finish interval host turn hosts in
      rw e (
        run_turns-StartsFrom span.host (span.finish + interval) turns hosts' (omega (arith, own)),
        later hosts',
      )

  -- The turns that are paced.
  abbrev pub has_host : Option Text → Bool
  has_host none = false
  has_host (some host) = not (is_empty host)

  abbrev pub is_paced : Turn → Bool
  is_paced turn = not (interval == 0) && has_host (paced_host lib turn.url)

  pace_host-length :
      (turn : Turn) (hosts : Hosts) (found : Option Text) (spans : List Span)
      → length (with_span (pace_host interval turn hosts found).0 spans)
        ≡ (if has_host found then suc (length spans) else length spans)
  unfolding pace_host
  pace_host-length turn hosts none spans = refl
  pace_host-length turn hosts (some host) spans = elim (Bool-cases (is_empty host)) [
    | inl y ↦ rw y refl
    | inr n ↦ rw n refl
  ]

  host_pace-length :
      (turn : Turn) (hosts : Hosts) (spans : List Span)
      → length (with_span (host_pace lib interval turn hosts).0 spans)
        ≡ (if is_paced turn then suc (length spans) else length spans)
  unfolding host_pace
  host_pace-length turn hosts spans = elim (Bool-cases (interval == 0)) [
    | inl y ↦ rw y refl
    | inr n ↦ rw n (pace_host-length turn hosts (paced_host lib turn.url) spans)
  ]

  run_turns-length :
      (turns : List Turn) (hosts : Hosts)
      → length (run_turns lib interval turns hosts) ≡ length (keep is_paced turns)
  unfolding run_turns
  run_turns-length [] hosts = refl
  run_turns-length (turn ∷ turns) hosts =
      let hosts' = (host_pace lib interval turn hosts).1 in
      let first = host_pace-length turn hosts (run_turns lib interval turns hosts') in
      let others = run_turns-length turns hosts' in
      elim (Bool-cases (is_paced turn)) [
        | inl y ↦ first ∙ rw (y, others) refl
        | inr n ↦ first ∙ rw (n, others) refl
      ]

  turns-Spaced :
      (turns : List Turn) (hosts : Hosts) → Spaced interval (run_turns lib interval turns hosts)
  unfolding run_turns
  turns-Spaced [] hosts = tt
  turns-Spaced (turn ∷ turns) hosts =
      step-Spaced turn turns hosts (host_pace lib interval turn hosts) (host_pace-Turns turn hosts)
        (turns-Spaced turns)

  -- However turns for several hosts are interleaved, and whatever times they ask at: each turn that is
  -- paced makes its request, and of any two requests to one host, the later starts no sooner than the
  -- interval after the end of the earlier.
  pub run_turns-Spaced :
      (turns : List Turn) (hosts : Hosts)
      → (length (run_turns lib interval turns hosts) ≡ length (keep is_paced turns))
        × Spaced interval (run_turns lib interval turns hosts)
  run_turns-Spaced turns hosts = (run_turns-length turns hosts, turns-Spaced turns hosts)
