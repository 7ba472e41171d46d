-- ===== src/Scholarship/Compare/Sets.antt =====
-- What agreement and contradiction across two sets of values mean.
use edufurther_agent_be.Base.{
  ◌≡◌, ◌≢◌, refl, sym, ap, ◌∙◌, ◌↔◌, ◌⊎◌, inl, inr, Bool, true, false, Option, none, some, List, [],
  ◌∷◌, Text, arith, Option-cases, In,
}
use edufurther_agent_be.Scholarship.Compare.{
  Comparator, agrees_with, find_match, find_any_match, compare_single, compare_sets,
}

-- A reported and an official value that agree.
abbrev pub Agreeing : Comparator → List Text → List Text → Text → Type 0
Agreeing comparator reported official o =
    (r : Text) × In r reported × In o official × (comparator r o ≡ some true)

agrees→eq : (a : Option Bool) → agrees_with a ≡ true → a ≡ some true
agrees→eq a h = ground arith

find_match-some :
    (f : Comparator) (r : Text) (os : List Text) (o : Text)
    → find_match f r os ≡ some o
    → In o os × (f r o ≡ some true)
unfolding find_match
find_match-some f r [] o h = absurd (cc)
find_match-some f r (x ∷ os) o h = ground (arith, agrees→eq (f r x), find_match-some f r os o)

find_match-none :
    (f : Comparator) (r : Text) (os : List Text) (o : Text)
    → find_match f r os ≡ none
    → In o os
    → f r o ≢ some true
unfolding find_match
find_match-none f r [] o h m e = m
find_match-none f r (x ∷ os) o h (inl i) e = ground (arith, ap (f r) i)
find_match-none f r (x ∷ os) o h (inr m) e = ground (arith, find_match-none f r os o)

find_any_match-some :
    (f : Comparator) (rs os : List Text) (o : Text)
    → find_any_match f rs os ≡ some o
    → Agreeing f rs os o
unfolding find_any_match
find_any_match-some f [] os o h = absurd (cc)
find_any_match-some f (r ∷ rs) os o h = elim (Option-cases (find_match f r os)) [
  | inl e ↦ let (r', m, n, t) = find_any_match-some f rs os o (rw e at h) in (r', inr m, n, t)
  | inr (p, e) ↦
      let found : find_match f r os ≡ some o = ground (arith, e) in
      let (inside, agrees) = find_match-some f r os o found in (r, inl refl, inside, agrees)
]

find_any_match-none :
    (f : Comparator) (rs os : List Text) (r o : Text)
    → find_any_match f rs os ≡ none
    → In r rs
    → In o os
    → f r o ≢ some true
unfolding find_any_match
find_any_match-none f [] os r o h m n e = m
find_any_match-none f (x ∷ rs) os r o h (inl i) n e =
    find_match-none f x os o (ground arith) n (ap (λ z. f z o) (sym i) ∙ e)
find_any_match-none f (x ∷ rs) os r o h (inr m) n e =
    find_any_match-none f rs os r o (ground arith) m n e

find_any_match-nil : (f : Comparator) (rs : List Text) → find_any_match f rs [] ≡ none
unfolding find_any_match
find_any_match-nil f [] = refl
find_any_match-nil f (r ∷ rs) = rw (find_any_match-nil f rs)

compare_sets-found :
    (f : Comparator) (rs os : List Text) (o : Text)
    → find_any_match f rs os ≡ some o
    → compare_sets f rs os ≡ (some true, some o)
unfolding compare_sets
compare_sets-found f [] os o h = absurd ((find_any_match-some f [] os o h).1)
compare_sets-found f (r ∷ rs) [] o h = absurd (cc (find_any_match-nil f (r ∷ rs)))
compare_sets-found f (r ∷ rs) (x ∷ os) o h = ground arith

compare_sets-single :
    (f : Comparator) (rs os : List Text)
    → find_any_match f rs os ≡ none
    → compare_sets f rs os ≡ compare_single f rs os
unfolding compare_sets
compare_sets-single f [] os h = unfold compare_single in refl
compare_sets-single f (r ∷ []) [] h = unfold compare_single in refl
compare_sets-single f (r ∷ s ∷ rs) [] h = unfold compare_single in refl
compare_sets-single f (r ∷ rs) (x ∷ os) h = ground arith

compare_single-some :
    (f : Comparator) (rs os : List Text) (b : Bool)
    → (compare_single f rs os).0 ≡ some b
    → (r : Text) × (o : Text) × (rs ≡ r ∷ []) × (os ≡ o ∷ []) × (f r o ≡ some b)
unfolding compare_single
compare_single-some f [] os b h = absurd (cc)
compare_single-some f (r ∷ []) [] b h = absurd (cc)
compare_single-some f (r ∷ []) (o ∷ []) b h = (r, o, refl, refl, h)
compare_single-some f (r ∷ []) (o ∷ p ∷ os) b h = absurd (cc)
compare_single-some f (r ∷ s ∷ rs) os b h = absurd (cc)

-- A claim is supported exactly when some reported value agrees with some official one, wherever they
-- stand in the lists, and the value that is given with it is such an official one.
pub compare_sets_supported :
    (f : Comparator) (rs os : List Text)
    → (((compare_sets f rs os).0 ≡ some true) ↔ ((o : Text) × Agreeing f rs os o))
      × (((compare_sets f rs os).0 ≢ some true)
          ⊎ ((o : Text) × ((compare_sets f rs os).1 ≡ some o) × Agreeing f rs os o))
compare_sets_supported f rs os = elim (Option-cases (find_any_match f rs os)) [
  | inl e ↦ (
    (
      (λ t. absurd (unmatched (rw (compare_sets-single f rs os e) at t) e)),
      (λ (o, w). absurd (find_any_match-none f rs os w.0 o e w.1 w.2 w.3)),
    ),
    inl (λ t. unmatched (rw (compare_sets-single f rs os e) at t) e),
  )
  | inr (o, e) ↦
      let found = compare_sets-found f rs os o e in
      (
        ((λ t. (o, find_any_match-some f rs os o e)), (λ a. rw found)),
        inr (o, rw found, find_any_match-some f rs os o e),
      )
]
  where
    unmatched : (compare_single f rs os).0 ≡ some true → find_any_match f rs os ≡ none → ⊥
    unmatched t e =
        let (r, o, p, q, a) = compare_single-some f rs os true t in
        find_any_match-none f rs os r o e (rw p (inl refl)) (rw q (inl refl)) a

-- A claim is contradicted exactly when each side has one value and the comparison of the two says
-- that they differ.
pub compare_sets_contradicted :
    (f : Comparator) (rs os : List Text)
    → ((compare_sets f rs os).0 ≡ some false)
      ↔ ((r : Text) × (o : Text) × (rs ≡ r ∷ []) × (os ≡ o ∷ []) × (f r o ≡ some false))
compare_sets_contradicted f rs os = (forth, back)
  where
    forth :
        (compare_sets f rs os).0 ≡ some false
        → (r : Text) × (o : Text) × (rs ≡ r ∷ []) × (os ≡ o ∷ []) × (f r o ≡ some false)
    forth t = elim (Option-cases (find_any_match f rs os)) [
      | inl e ↦ compare_single-some f rs os false (rw (compare_sets-single f rs os e) at t)
      | inr (o, e) ↦ cc (compare_sets-found f rs os o e)
    ]

    back :
        (r : Text) × (o : Text) × (rs ≡ r ∷ []) × (os ≡ o ∷ []) × (f r o ≡ some false)
        → (compare_sets f rs os).0 ≡ some false
    back (r, o, p, q, a) =
        rw (p, q) (unfold compare_sets find_any_match find_match compare_single in ground arith)
