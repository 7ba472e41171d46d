-- ===== src/Scholarship/Policies/RollUp.antt =====
-- The outcome of a job among those of its candidates.
use edufurther_agent_be.Base.{
  ℕ, ◌≤◌, ◌<◌, ◌≡◌, ◌≢◌, refl, true, false, Option, none, some, List, [], ◌∷◌, All, Any, any, arith,
}
use edufurther_agent_be.Scholarship.Schemas.{
  AgentOutcome, review_required, more_evidence_required, auto_check_eligible, reject_recommended,
  Candidate,
}
use edufurther_agent_be.Scholarship.Policies.{has_outcome, roll_up}

-- How much human attention an outcome asks for.
abbrev pub attention : AgentOutcome → ℕ
attention review_required = 3
attention reject_recommended = 2
attention more_evidence_required = 1
attention auto_check_eligible = 0

abbrev pub Decided : AgentOutcome → Candidate → Type 0
Decided o c = c.outcome ≡ some o

any-Any :
    (o : AgentOutcome) (cs : List Candidate) → any (has_outcome o) cs ≡ true → Any (Decided o) cs
any-Any o [] h = cc
any-Any o (c ∷ cs) h = ground (arith, any-Any o cs)

abbrev attention_of : Option AgentOutcome → ℕ
attention_of none = 0
attention_of (some o) = attention o

-- A candidate asks for no more attention than `o`.
abbrev pub AtMost : AgentOutcome → Candidate → Type 0
AtMost o c = attention_of c.outcome ≤ attention o

abbrev Outranked : AgentOutcome → List Candidate → Type 0
Outranked o cs = (p : AgentOutcome) → attention o < attention p → any (has_outcome p) cs ≡ false

Outranked-tail :
    (o : AgentOutcome) (c : Candidate) (cs : List Candidate) → Outranked o (c ∷ cs) → Outranked o cs
Outranked-tail o c cs h p lt = ground (arith, h p)

Outranked-AtMost : (o : AgentOutcome) (cs : List Candidate) → Outranked o cs → All (AtMost o) cs
Outranked-AtMost o [] h = tt
Outranked-AtMost o (c ∷ cs) h = (
  ground (arith, h review_required, h reject_recommended, h more_evidence_required),
  Outranked-AtMost o cs (Outranked-tail o c cs h),
)

roll_up-Outranked : (cs : List Candidate) → cs ≢ [] → Outranked (roll_up cs) cs
unfolding roll_up
roll_up-Outranked cs n p lt = ground arith

-- A candidate has some outcome.
abbrev pub IsDecided : Candidate → Type 0
IsDecided c = c.outcome ≢ none

roll_up_present :
    (c : Candidate) (cs : List Candidate)
    → IsDecided c
    → any (has_outcome (roll_up (c ∷ cs))) (c ∷ cs) ≡ true
unfolding roll_up
roll_up_present c cs d = ground arith

-- The outcome of a job over decided candidates is that of one of them, and none of them asks for more
-- attention, wherever it stands in the list.
pub roll_up_greatest :
    (cs : List Candidate)
    → cs ≢ []
    → All IsDecided cs
    → Any (Decided (roll_up cs)) cs × All (AtMost (roll_up cs)) cs
roll_up_greatest [] n d = absurd (n refl)
roll_up_greatest (c ∷ cs) n d = (
  any-Any (roll_up (c ∷ cs)) (c ∷ cs) (roll_up_present c cs d.0),
  Outranked-AtMost (roll_up (c ∷ cs)) (c ∷ cs) (roll_up-Outranked (c ∷ cs) n),
)
