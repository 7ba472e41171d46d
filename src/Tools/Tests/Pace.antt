-- ===== src/Tools/Tests/Pace.antt =====
-- The pacing of turns at concrete inputs: two for one host, and one for another between them.
use edufurther_agent_be.Base.{
  ◌≡◌, refl, List, [], ◌∷◌, Text, lit, length, keep, lower, text_eq, starts_with, split_on,
  drop_while,
}
use edufurther_agent_be.Python.Urls.{urlsplit, hostname}
use edufurther_agent_be.Tools.Throttle.{
  Turn, run_turns, host_pace, pace_host, paced_host, take_turn, slot, stamp, wait_of,
}
use edufurther_agent_be.Tools.Throttle.Spacing.{Spaced, is_paced, run_turns-Spaced}
use edufurther_agent_be.Tools.Tests.{lib, page_url, domain}

abbrev other_url : Text
other_url = lit "http://b.org/"

abbrev turns : List Turn
turns =
    record { url = page_url; now = 2000000; taken = 500000 }
    ∷ record { url = other_url; now = 2100000; taken = 100000 }
    ∷ record { url = page_url; now = 2600000; taken = 100000 }
    ∷ []

-- The third waits until 1.5 seconds after the end of the first.
third_waits :
    run_turns lib 1500000 turns []
    ≡ record { host = domain; start = 2000000; finish = 2500000 }
      ∷ record { host = lit "b.org"; start = 2100000; finish = 2200000 }
      ∷ record { host = domain; start = 4000000; finish = 4100000 }
      ∷ []
unfolding run_turns host_pace pace_host paced_host take_turn slot stamp wait_of urlsplit hostname
    lit text_eq lower starts_with split_on drop_while
third_waits = refl

run_turns-Spaced_example :
    (length (run_turns lib 1500000 turns []) ≡ length (keep (is_paced lib 1500000) turns))
    × Spaced 1500000 (run_turns lib 1500000 turns [])
run_turns-Spaced_example = run_turns-Spaced lib 1500000 turns []
