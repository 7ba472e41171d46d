-- ===== src/Scholarship/Compare/Agreement.antt =====
-- The verdict on a claim: which values decide it, and the evidence that it adds.
use edufurther_agent_be.Base.{
  ◌≡◌, refl, ◌∙◌, ◌⊎◌, inl, inr, Bool, true, false, Option, none, some, Text, arith, Option-cases,
  In,
}
use edufurther_agent_be.Scholarship.Schemas.{
  Candidate, Evidence, Confidence, explicit, model_extracted,
}
use edufurther_agent_be.Scholarship.Compare.{
  Claim, Pairs, compare_sets, get_pair, listed, settle_claim, claim_evidence, evidence_of,
  settle_agreement,
}

-- What was read deterministically on both sides.
abbrev pub read : Claim → Option Bool × Option Text
read claim = compare_sets claim.comparator claim.reported claim.official

-- What the model located on both sides.
abbrev pub located : Claim → Pairs → Option Bool × Option Text
located claim pairs =
    compare_sets claim.comparator (listed (get_pair claim.path pairs).0)
      (listed (get_pair claim.path pairs).1)

pub settle_claim-read :
    (claim : Claim) (pairs : Pairs) (b : Bool)
    → (read claim).0 ≡ some b
    → settle_claim claim pairs ≡ (some b, (read claim).1, explicit)
unfolding settle_claim
settle_claim-read claim pairs b h = ground arith

pub settle_claim-located :
    (claim : Claim) (pairs : Pairs)
    → (read claim).0 ≡ none
    → settle_claim claim pairs ≡ ((located claim pairs).0, (located claim pairs).1, model_extracted)
unfolding settle_claim
settle_claim-located claim pairs h = ground arith

-- Where the values that were read deterministically decide a claim, nothing that the model located
-- changes the verdict, the value or the confidence of either claim.
pub settle_agreement_determined :
    (now : Text) (c : Candidate) (funding deadline : Claim) (pairs pairs' : Pairs) (a d : Bool)
    → (read funding).0 ≡ some a
    → (read deadline).0 ≡ some d
    → settle_agreement now c funding deadline pairs ≡ settle_agreement now c funding deadline pairs'
unfolding settle_agreement
settle_agreement_determined now c funding deadline pairs pairs' a d h k = rw (
  settle_claim-read funding pairs a h,
  settle_claim-read funding pairs' a h,
  settle_claim-read deadline pairs d k,
  settle_claim-read deadline pairs' d k,
)

claim_evidence-In :
    (c : Candidate) (now path : Text) (v : Option Bool × Option Text × Confidence) (e : Evidence)
    → In e (claim_evidence c now path v)
    → (v.0 ≡ some true) × (e.claim_path ≡ path) × (e.confidence ≡ some v.2)
unfolding claim_evidence evidence_of
claim_evidence-In c now path (none, v, k) e m = absurd m
claim_evidence-In c now path (some false, v, k) e m = absurd m
claim_evidence-In c now path (some true, none, k) e m = absurd m
claim_evidence-In c now path (some true, some v, k) e m = ground arith

-- Evidence is added for a claim only where it is supported, under its path; and it is marked as
-- located by the model unless the values that were read deterministically agree.
pub claim_evidence_supported :
    (c : Candidate) (now : Text) (claim : Claim) (pairs : Pairs) (e : Evidence)
    → In e (claim_evidence c now claim.path (settle_claim claim pairs))
    → (e.claim_path ≡ claim.path)
      × ((settle_claim claim pairs).0 ≡ some true)
      × ((e.confidence ≡ some model_extracted) ⊎ ((read claim).0 ≡ some true))
claim_evidence_supported c now claim pairs e m = (given.1, given.0, origin)
  where
    given :
        ((settle_claim claim pairs).0 ≡ some true)
        × (e.claim_path ≡ claim.path)
        × (e.confidence ≡ some (settle_claim claim pairs).2)
    given = claim_evidence-In c now claim.path (settle_claim claim pairs) e m

    origin : (e.confidence ≡ some model_extracted) ⊎ ((read claim).0 ≡ some true)
    origin = elim (Option-cases (read claim).0) [
      | inl n ↦ inl (given.2 ∙ rw (settle_claim-located claim pairs n) refl)
      | inr (b, y) ↦ inr (ground (arith, given.0, settle_claim-read claim pairs b y))
    ]
