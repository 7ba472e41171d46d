-- ===== src/Scholarship/Compare/Rejection.antt =====
-- From the values to a rejection: what it takes for the settled candidate to be rejected.
use edufurther_agent_be.Base.{
  ◌≡◌, ◌⊎◌, inl, inr, true, false, Option, none, some, [], ◌∷◌, Text, arith, Option-cases,
}
use edufurther_agent_be.Scholarship.Schemas.{Candidate, reject_recommended}
use edufurther_agent_be.Scholarship.Policies.{decide_outcome}
use edufurther_agent_be.Scholarship.Policies.Verdicts.{reject_recommended_iff}
use edufurther_agent_be.Scholarship.Compare.{
  Claim, Pairs, get_pair, listed, settle_claim, settle_agreement,
}
use edufurther_agent_be.Scholarship.Compare.Sets.{compare_sets_contradicted}
use edufurther_agent_be.Scholarship.Compare.Agreement.{
  read, settle_claim-read, settle_claim-located,
}

-- The single values of a claim differ: those that were read, or, where these do not decide, those that
-- the model located.
abbrev pub Contradicts : Claim → Pairs → Type 0
Contradicts claim pairs =
    (r : Text) × (o : Text) × (claim.comparator r o ≡ some false)
    × (((claim.reported ≡ r ∷ []) × (claim.official ≡ o ∷ []))
        ⊎ (((read claim).0 ≡ none) × (get_pair claim.path pairs ≡ (some r, some o))))

listed-single : (v : Option Text) (s : Text) → listed v ≡ s ∷ [] → v ≡ some s
listed-single none s h = absurd (cc)
listed-single (some []) s h = absurd (cc)
listed-single (some (x ∷ t)) s h = ground arith

settle_claim-Contradicts :
    (claim : Claim) (pairs : Pairs)
    → (settle_claim claim pairs).0 ≡ some false
    → Contradicts claim pairs
settle_claim-Contradicts claim pairs h = elim (Option-cases (read claim).0) [
  | inr (b, e) ↦
      let settled = settle_claim-read claim pairs b e in
      let (r, o, p, q, f) =
        (compare_sets_contradicted claim.comparator claim.reported claim.official).0
          (ground (arith, settled)) in
      (r, o, f, inl (p, q))
  | inl e ↦
      let settled = settle_claim-located claim pairs e in
      let (reported, official) = get_pair claim.path pairs in
      let (r, o, p, q, f) =
        (compare_sets_contradicted claim.comparator (listed reported) (listed official)).0
          (ground (arith, settled)) in
      (r, o, f, inr (e, ground (arith, listed-single reported r p, listed-single official o q)))
]

-- A rejection rests on a page that was fetched and on two single values of one claim that the exact
-- comparison tells apart, whatever else the model reported.
pub settle_agreement_rejects :
    (now : Text) (c : Candidate) (funding deadline : Claim) (pairs : Pairs)
    → (decide_outcome (settle_agreement now c funding deadline pairs)).0 ≡ reject_recommended
    → (c.official_page_fetched ≡ true) × (Contradicts funding pairs ⊎ Contradicts deadline pairs)
settle_agreement_rejects now c funding deadline pairs h =
    let (fetched, differs) =
      (reject_recommended_iff (settle_agreement now c funding deadline pairs)).0 h in
    (
      unfold settle_agreement in fetched,
      elim differs [
        | inl amount ↦
            inl (settle_claim-Contradicts funding pairs (unfold settle_agreement in amount))
        | inr date ↦ inr (settle_claim-Contradicts deadline pairs (unfold settle_agreement in date))
      ],
    )
