-- ===== src/Scholarship/Workflow/Duplicates.antt =====
-- What is left of candidates that share an identity key.
use edufurther_agent_be.Base.{
  ℕ, ◌≡◌, refl, sym, ap, inl, inr, Bool, true, false, ◌&&◌, Option, none, some, List, [], ◌∷◌, ◌++◌,
  Text, text_eq, text_eq→eq, eq→text_eq, find_first, is_none, is_some, arith, if◌then◌else◌,
  Bool-cases, Option-cases,
}
use edufurther_agent_be.Scholarship.Schemas.{Candidate}
use edufurther_agent_be.Scholarship.Workflow.{
  State, has_identity, find_identity, replace_identity, see, see_all, dedupe_candidates,
}

-- A candidate of that identity with a link of its own.
abbrev pub linked : Text → Candidate → Bool
linked key c = has_identity key c && is_some c.url

abbrev or_else : Option Candidate → Option Candidate → Option Candidate
or_else none b = b
or_else (some a) b = some a

-- The candidate that stands for an identity: the first one with a link of its own, and without any the
-- first one.
abbrev pub representative : Text → List Candidate → Option Candidate
representative key cs = or_else (find_first (linked key) cs) (find_first (has_identity key) cs)

-- The same behind one that was met before.
abbrev after : Option Candidate → Text → List Candidate → Option Candidate
after none key cs = representative key cs
after (some e) key cs =
    if is_none e.url then or_else (find_first (linked key) cs) (some e) else some e

-- Which of two is kept.
abbrev kept : Option Candidate → Candidate → Candidate
kept none c = c
kept (some e) c = if is_none e.url && is_some c.url then c else e

find_identity-append :
    (k : Text) (cs ds : List Candidate)
    → find_identity k (cs ++ ds) ≡ or_else (find_identity k cs) (find_identity k ds)
unfolding find_identity
find_identity-append k [] ds = refl
find_identity-append k (c ∷ cs) ds = ground (arith, find_identity-append k cs ds)

find_identity-has_identity :
    (k : Text) (cs : List Candidate) (c : Candidate)
    → find_identity k cs ≡ some c
    → c.identity_key ≡ k
unfolding find_identity
find_identity-has_identity k [] c h = cc
find_identity-has_identity k (d ∷ cs) c h =
    ground (arith, text_eq→eq d.identity_key k, find_identity-has_identity k cs c)

find_identity-replace_identity :
    (k : Text) (c : Candidate) (cs : List Candidate)
    → find_identity k (replace_identity c cs) ≡ (
        if text_eq c.identity_key k && is_some (find_identity k cs)
        then some c
        else find_identity k cs)
unfolding find_identity replace_identity
find_identity-replace_identity k c [] = ground arith
find_identity-replace_identity k c (d ∷ cs) =
    elim (Bool-cases (text_eq d.identity_key c.identity_key)) [
      | inl e ↦ ground (arith, text_eq→eq d.identity_key c.identity_key)
      | inr n ↦ elim (Bool-cases (text_eq c.identity_key k)) [
        | inl e ↦
            let other : text_eq d.identity_key k ≡ false =
              rw (sym (text_eq→eq c.identity_key k e)) n in
            ground (arith, find_identity-replace_identity k c cs)
        | inr m ↦ ground (arith, find_identity-replace_identity k c cs)
      ]
    ]

see-none :
    (c : Candidate) (seen : List Candidate) (n : ℕ)
    → find_identity c.identity_key seen ≡ none
    → (see c (seen, n)).0 ≡ seen ++ c ∷ []
unfolding see
see-none c seen n h = ground arith

see-some :
    (c e : Candidate) (seen : List Candidate) (n : ℕ)
    → find_identity c.identity_key seen ≡ some e
    → (see c (seen, n)).0
      ≡ (if is_none e.url && is_some c.url then replace_identity c seen else seen)
unfolding see
see-some c e seen n h = ground arith

find_identity-single :
    (k : Text) (c : Candidate)
    → find_identity k (c ∷ []) ≡ (if text_eq c.identity_key k then some c else none)
unfolding find_identity
find_identity-single k c = refl

kept-found :
    (k : Text) (c : Candidate) (seen : List Candidate)
    → text_eq c.identity_key k ≡ true
    → find_identity k seen ≡ find_identity c.identity_key seen
kept-found k c seen h =
    ap (λ (x : Text). find_identity x seen) (sym (text_eq→eq c.identity_key k h))

-- One turn moves the entry of its own identity alone.
find_identity-see :
    (k : Text) (c : Candidate) (seen : List Candidate) (n : ℕ)
    → find_identity k (see c (seen, n)).0 ≡ (
        if text_eq c.identity_key k
        then some (kept (find_identity k seen) c)
        else find_identity k seen)
find_identity-see k c seen n = elim (Option-cases (find_identity c.identity_key seen)) [
  | inl e ↦ rw (see-none c seen n e) (
      rw (find_identity-append k seen (c ∷ []))
        (rw (find_identity-single k c) (ground (arith, e, kept-found k c seen))))
  | inr (d, e) ↦
      rw (see-some c d seen n e)
        (ground (arith, e, kept-found k c seen, find_identity-replace_identity k c seen))
]

find_identity-see_all :
    (k : Text) (cs : List Candidate) (seen : List Candidate) (n : ℕ)
    → find_identity k (see_all cs (seen, n)).0 ≡ after (find_identity k seen) k cs
unfolding see_all
find_identity-see_all k [] seen n = elim (Option-cases (find_identity k seen)) [
  | inl e ↦ rw e refl
  | inr (d, e) ↦ rw e (ground arith)
]
find_identity-see_all k (c ∷ cs) seen n = ground (
  arith,
  find_identity-see_all k cs (see c (seen, n)).0 (see c (seen, n)).1,
  find_identity-see k c seen n,
)

-- No two candidates share an identity.
abbrev pub UniqueIdentities : List Candidate → Type 0
UniqueIdentities [] = Unit
UniqueIdentities (c ∷ cs) = (find_identity c.identity_key cs ≡ none) × UniqueIdentities cs

text_eq_flip : (a b : Text) → text_eq a b ≡ true → text_eq b a ≡ true
text_eq_flip a b h = eq→text_eq b a (sym (text_eq→eq a b h))

append-UniqueIdentities :
    (c : Candidate) (cs : List Candidate)
    → UniqueIdentities cs
    → find_identity c.identity_key cs ≡ none
    → UniqueIdentities (cs ++ c ∷ [])
unfolding find_identity
append-UniqueIdentities c [] u h = (refl, tt)
append-UniqueIdentities c (d ∷ cs) u h = (
  rw (find_identity-append d.identity_key cs (c ∷ []))
      (ground (arith, u.0, text_eq_flip c.identity_key d.identity_key)),
  append-UniqueIdentities c cs u.1 (ground arith),
)

replace_identity-UniqueIdentities :
    (c : Candidate) (cs : List Candidate)
    → UniqueIdentities cs
    → UniqueIdentities (replace_identity c cs)
unfolding replace_identity
replace_identity-UniqueIdentities c [] u = tt
replace_identity-UniqueIdentities c (d ∷ cs) u =
    elim (Bool-cases (text_eq d.identity_key c.identity_key)) [
      | inl e ↦ rw e (rw (sym (text_eq→eq d.identity_key c.identity_key e)) u.0, u.1)
      | inr n ↦ rw n (
        rw (find_identity-replace_identity d.identity_key c cs) (ground (arith, u.0)),
        replace_identity-UniqueIdentities c cs u.1,
      )
    ]

see-UniqueIdentities :
    (c : Candidate) (seen : List Candidate) (n : ℕ)
    → UniqueIdentities seen
    → UniqueIdentities (see c (seen, n)).0
see-UniqueIdentities c seen n u = elim (Option-cases (find_identity c.identity_key seen)) [
  | inl e ↦ rw (see-none c seen n e) (append-UniqueIdentities c seen u e)
  | inr (d, e) ↦ rw (see-some c d seen n e) (elim (Bool-cases (is_none d.url && is_some c.url)) [
    | inl y ↦ rw y (replace_identity-UniqueIdentities c seen u)
    | inr f ↦ rw f u
  ])
]

see_all-UniqueIdentities :
    (cs seen : List Candidate) (n : ℕ)
    → UniqueIdentities seen
    → UniqueIdentities (see_all cs (seen, n)).0
unfolding see_all
see_all-UniqueIdentities [] seen n u = u
see_all-UniqueIdentities (c ∷ cs) seen n u =
    see_all-UniqueIdentities cs (see c (seen, n)).0 (see c (seen, n)).1
      (see-UniqueIdentities c seen n u)

dedupe_candidates-see_all :
    (s : State) → (dedupe_candidates s).candidates ≡ (see_all s.candidates ([], 0)).0
unfolding dedupe_candidates
dedupe_candidates-see_all s = ground arith

-- The removal of duplicates leaves one candidate per identity, and for each identity that occurs the
-- first candidate with a link of its own, or, where none has one, the first candidate.
pub dedupe_candidates_lem :
    (s : State) (key : Text)
    → UniqueIdentities (dedupe_candidates s).candidates
      × (find_identity key (dedupe_candidates s).candidates ≡ representative key s.candidates)
unfolding find_identity
dedupe_candidates_lem s key =
    rw (dedupe_candidates-see_all s)
      (see_all-UniqueIdentities s.candidates [] 0 tt, find_identity-see_all key s.candidates [] 0)
