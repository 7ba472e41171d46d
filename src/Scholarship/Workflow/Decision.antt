-- ===== src/Scholarship/Workflow/Decision.antt =====
-- The decision on a job: when it is a rejection, and how the job's outcome stands to its candidates'.
use edufurther_agent_be.Base.{
  ◌≡◌, ◌≢◌, refl, ◌⊎◌, inl, inr, true, false, some, List, [], ◌∷◌, map, Text, lit, text_eq, any,
  arith, Bool-cases, All, Any, ◌<◌,
}
use edufurther_agent_be.Scholarship.Schemas.{
  AgentOutcome, more_evidence_required, reject_recommended, Candidate, page_type_value,
  not_a_scholarship,
}
use edufurther_agent_be.Scholarship.Policies.{
  decide_outcome, outcome_for_page_type, roll_up, has_outcome, is_false,
}
use edufurther_agent_be.Scholarship.Policies.Verdicts.{reject_recommended_iff}
use edufurther_agent_be.Scholarship.Policies.RollUp.{Decided, AtMost, IsDecided, roll_up_greatest}
use edufurther_agent_be.Tools.Retrieval.{RetrievedPage, body_chars, min_usable_body_chars}
use edufurther_agent_be.Scholarship.Workflow.{
  State, decide, decide_all, decide_each, settle_outcome, receive_page, route_after_fetch,
  to_decide, is_usable_page,
}

-- A candidate whose official page was fetched and states another figure.
abbrev pub IsContradicted : Candidate → Type 0
IsContradicted c =
    (c.official_page_fetched ≡ true)
    × ((c.amount_agrees ≡ some false) ⊎ (c.deadline_agrees ≡ some false))

abbrev decided : Candidate → Candidate
decided c = settle_outcome (decide_outcome c).0 (decide_outcome c).1 c

decided-outcome : (c : Candidate) → (decided c).outcome ≡ some (decide_outcome c).0
unfolding settle_outcome
decided-outcome c = refl

any_rejected-IsContradicted :
    (cs : List Candidate)
    → any (has_outcome reject_recommended) (map decided cs) ≡ true
    → Any IsContradicted cs
any_rejected-IsContradicted [] h = cc
any_rejected-IsContradicted (c ∷ cs) h =
    elim (Bool-cases (has_outcome reject_recommended (decided c))) [
      | inl y ↦ inl ((reject_recommended_iff c).0 (ground (arith, decided-outcome c)))
      | inr n ↦ inr (any_rejected-IsContradicted cs (ground arith))
    ]

roll_up-reject :
    (cs : List Candidate)
    → roll_up cs ≡ reject_recommended
    → any (has_outcome reject_recommended) cs ≡ true
unfolding roll_up
roll_up-reject cs h = ground arith

pub decide_unreadable :
    (s : State) → s.page_usable ≡ some false → (decide s).outcome ≡ some more_evidence_required
unfolding decide decide_all
decide_unreadable s h = ground arith

decide_each_rejects :
    (s : State)
    → (decide_each s).outcome ≡ some reject_recommended
    → Any IsContradicted s.candidates
unfolding decide_each
decide_each_rejects s h =
    any_rejected-IsContradicted s.candidates
      (ground (arith, roll_up-reject (map decided s.candidates)))

-- The two shapes of a decision.
pub decide-cases :
    (s : State)
    → (decide s ≡ decide_each s)
      ⊎ ((o : AgentOutcome) × (reason : Text) × (why : Text) × (decide s
            ≡ decide_all o reason why s)
          × ((o ≡ more_evidence_required)
              ⊎ (text_eq s.page_type (page_type_value not_a_scholarship) ≡ true)))
unfolding decide outcome_for_page_type
decide-cases s = elim (Bool-cases (is_false s.page_usable)) [
  | inl y ↦ inr (
    more_evidence_required,
    lit "source page could not be retrieved",
    lit "source page could not be retrieved",
    rw y refl,
    inl refl,
  )
  | inr n ↦ elim (Bool-cases (text_eq s.page_type (page_type_value not_a_scholarship))) [
    | inl y ↦ inr (
      reject_recommended,
      lit "page describes no funding opportunity",
      lit "page type",
      rw (n, y) refl,
      inr y,
    )
    | inr m ↦ inl (rw (n, m) refl)
  ]
]

decide_all-outcome :
    (o : AgentOutcome) (reason why : Text) (s : State)
    → (decide_all o reason why s).outcome ≡ some o
unfolding decide_all
decide_all-outcome o reason why s = refl

-- A job is rejected only where its source page could be read, and then only because the page describes
-- no scholarship, or because some candidate's official page was fetched and states another figure.
pub decide_rejects :
    (s : State)
    → (decide s).outcome ≡ some reject_recommended
    → (s.page_usable ≢ some false)
      × ((text_eq s.page_type (page_type_value not_a_scholarship) ≡ true)
          ⊎ Any IsContradicted s.candidates)
decide_rejects s h = (λ e. cc (decide_unreadable s e), cause)
  where
    cause :
        (text_eq s.page_type (page_type_value not_a_scholarship) ≡ true)
        ⊎ Any IsContradicted s.candidates
    cause = elim (decide-cases s) [
      | inl e ↦ inr (decide_each_rejects s (ground (arith, e)))
      | inr (o, reason, why, e, inl m) ↦
          absurd (ground (arith, e, m, decide_all-outcome o reason why s))
      | inr (o, reason, why, e, inr y) ↦ inl y
    ]

receive_page-usable :
    (page : RetrievedPage) (s : State)
    → (receive_page page s).page_usable ≡ some (is_usable_page page)
unfolding receive_page
receive_page-usable page s = refl

-- A source page that is no success or too short to be a page is not classified: the route goes to the
-- decision, which asks for more evidence, whatever else is in the state.
pub receive_page_unusable :
    (page : RetrievedPage) (s : State)
    → (page.status_code ≢ 200) ⊎ (body_chars page < min_usable_body_chars)
    → (route_after_fetch (receive_page page s) ≡ to_decide)
      × ((decide (receive_page page s)).outcome ≡ some more_evidence_required)
unfolding route_after_fetch is_usable_page
receive_page_unusable page s h =
    let unusable : (receive_page page s).page_usable ≡ some false =
      ground (arith, receive_page-usable page s) in
    (rw unusable refl, decide_unreadable (receive_page page s) unusable)

map-decided-IsDecided : (cs : List Candidate) → All IsDecided (map decided cs)
unfolding settle_outcome
map-decided-IsDecided [] = tt
map-decided-IsDecided (c ∷ cs) = ((λ e. cc e), map-decided-IsDecided cs)

map_settled-AtMost :
    (o : AgentOutcome) (reasons : List Text) (cs : List Candidate)
    → All (AtMost o) (map (settle_outcome o reasons) cs)
unfolding settle_outcome
map_settled-AtMost o reasons [] = tt
map_settled-AtMost o reasons (c ∷ cs) = (omega arith, map_settled-AtMost o reasons cs)

map_settled-Decided :
    (o : AgentOutcome) (reasons : List Text) (cs : List Candidate)
    → cs ≢ []
    → Any (Decided o) (map (settle_outcome o reasons) cs)
unfolding settle_outcome
map_settled-Decided o reasons [] n = absurd (n refl)
map_settled-Decided o reasons (c ∷ cs) n = inl refl

-- What is claimed of a decision.
abbrev Greatest : State → Type 0
Greatest s =
    (o : AgentOutcome) × (s.outcome ≡ some o)
    × Any (Decided o) s.candidates
    × All (AtMost o) s.candidates

decide_all-Greatest :
    (o : AgentOutcome) (reason why : Text) (s : State)
    → s.candidates ≢ []
    → Greatest (decide_all o reason why s)
unfolding decide_all
decide_all-Greatest o reason why s n = (
  o,
  refl,
  map_settled-Decided o (reason ∷ []) s.candidates n,
  map_settled-AtMost o (reason ∷ []) s.candidates,
)

map-decided-some : (cs : List Candidate) → cs ≢ [] → map decided cs ≢ []
map-decided-some [] n e = n refl
map-decided-some (c ∷ cs) n e = cc

decide_each-Greatest : (s : State) → s.candidates ≢ [] → Greatest (decide_each s)
unfolding decide_each
decide_each-Greatest s n =
    let some_there = map-decided-some s.candidates n in
    let (present, greatest) =
      roll_up_greatest (map decided s.candidates) some_there (map-decided-IsDecided s.candidates) in
    (roll_up (map decided s.candidates), ground arith, present, greatest)

-- The outcome of a job with candidates is, in every branch, that of one of them, and none of them asks
-- for more attention.
pub decide_greatest :
    (s : State)
    → s.candidates ≢ []
    → (o : AgentOutcome) × ((decide s).outcome ≡ some o)
      × Any (Decided o) (decide s).candidates
      × All (AtMost o) (decide s).candidates
decide_greatest s n = elim (decide-cases s) [
  | inl e ↦ rw e (decide_each-Greatest s n)
  | inr (o, reason, why, e, m) ↦ rw e (decide_all-Greatest o reason why s n)
]
