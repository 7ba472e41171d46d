-- ===== src/Scholarship/Extraction/Months.antt =====
-- The names of the months in a date that is extracted.
use edufurther_agent_be.Base.{
  ℕ, ◌+◌, ◌≡◌, refl, sym, ap, ◌∙◌, inl, inr, true, ◌||◌, ◌&&◌, List, [], ◌∷◌, ◌++◌, Text, lit,
  lower, contains_text, text_eq, leb, All-mono, Bool-cases, arith, ◌==◌, if◌then◌else◌,
}
use edufurther_agent_be.Python.Regex.{small_literal}
use edufurther_agent_be.Python.Regex.Languages.{
  Rest, Matches, Seq, weaken-Matches, then_-Matches, or_-Matches, optionally-Matches, free, Free,
  append-nil,
}
use edufurther_agent_be.Scholarship.Extraction.{month_name, short_or_long}

-- The first three letters of the months.
abbrev pub month_starts : List Text
month_starts =
    lit "jan"
    ∷ lit "feb"
    ∷ lit "mar"
    ∷ lit "apr"
    ∷ lit "may"
    ∷ lit "jun"
    ∷ lit "jul"
    ∷ lit "aug"
    ∷ lit "sep"
    ∷ lit "oct"
    ∷ lit "nov"
    ∷ lit "dec"
    ∷ []

-- A word that begins as a month does, in letters of either case.
abbrev pub IsMonth : Text → Type 0
IsMonth w =
    (start : Text) × (rest : Text) × (contains_text start month_starts ≡ true)
    × (lower w ≡ start ++ rest)

small_letter :
    (c x : ℕ) (cs front : Text)
    → ((c == x) || ((c == x + 32) && leb b'A' x && leb x b'Z')) ≡ true
    → lower front ≡ lower cs
    → lower (x ∷ front) ≡ lower (c ∷ cs)
unfolding lower
small_letter c x cs front y h = ground (arith, h)

pub small_literal-Matches : (l : Text) → Matches (λ w. lower w ≡ lower l) (small_literal l)
unfolding small_literal lower
small_literal-Matches [] s = (([], refl, refl), tt)
small_literal-Matches (c ∷ cs) [] = tt
small_literal-Matches (c ∷ cs) (x ∷ xs) =
    elim (Bool-cases ((c == x) || ((c == x + 32) && leb b'A' x && leb x b'Z'))) [
      | inl y ↦ rw y (
          All-mono (Rest (λ w. lower w ≡ lower cs) xs)
            (Rest (λ w. lower w ≡ lower (c ∷ cs)) (x ∷ xs)) (small_literal cs xs)
            (λ r (front, e, h).
              (x ∷ front, ap (λ (t : Text). x ∷ t) e, small_letter c x cs front y h))
            (small_literal-Matches cs xs))
      | inr n ↦ rw n tt
    ]

lower-append : (u v : Text) → lower (u ++ v) ≡ lower u ++ lower v
unfolding lower
lower-append [] v = refl
lower-append (x ∷ u) v =
    ap (λ (t : Text). (if leb b'A' x && leb x b'Z' then x + 32 else x) ∷ t) (lower-append u v)

pub small_literal-Free : (l : Text) → Matches Free (small_literal l)
small_literal-Free l = free _ (small_literal l) (small_literal-Matches l)

short_or_long-IsMonth :
    (short rest : Text)
    → contains_text (lower short) month_starts ≡ true
    → Matches IsMonth (short_or_long short rest)
short_or_long-IsMonth short rest known =
    weaken-Matches (Seq (λ w. lower w ≡ lower short) Free) IsMonth (short_or_long short rest)
      (λ w (u, v, e, h, _). (
        lower short,
        lower v,
        known,
        ap lower e ∙ lower-append u v ∙ ap (λ (t : Text). t ++ lower v) h,
      ))
      (then_-Matches _ Free (small_literal short) _ (small_literal-Matches short)
        (optionally-Matches Free (small_literal rest) tt (small_literal-Free rest)))

may-IsMonth : Matches IsMonth (small_literal (lit "may"))
unfolding contains_text lower lit text_eq
may-IsMonth =
    weaken-Matches _ IsMonth (small_literal (lit "may"))
      (λ w h. (lower (lit "may"), [], refl, h ∙ sym (append-nil (lower (lit "may")))))
      (small_literal-Matches (lit "may"))

pub month_name-IsMonth : Matches IsMonth month_name
unfolding month_name contains_text lower lit text_eq
month_name-IsMonth = or_-Matches IsMonth _ _ (short_or_long-IsMonth (lit "jan") (lit "uary") refl) (
    or_-Matches IsMonth _ _ (short_or_long-IsMonth (lit "feb") (lit "ruary") refl) (
      or_-Matches IsMonth _ _ (short_or_long-IsMonth (lit "mar") (lit "ch") refl) (
        or_-Matches IsMonth _ _ (short_or_long-IsMonth (lit "apr") (lit "il") refl) (
          or_-Matches IsMonth _ _ may-IsMonth (
            or_-Matches IsMonth _ _ (short_or_long-IsMonth (lit "jun") (lit "e") refl) (
              or_-Matches IsMonth _ _ (short_or_long-IsMonth (lit "jul") (lit "y") refl) (
                or_-Matches IsMonth _ _ (short_or_long-IsMonth (lit "aug") (lit "ust") refl) (
                  or_-Matches IsMonth _ _ (short_or_long-IsMonth (lit "sep") (lit "tember") refl) (
                    or_-Matches IsMonth _ _ (short_or_long-IsMonth (lit "oct") (lit "ober") refl) (
                      or_-Matches IsMonth _ _ (short_or_long-IsMonth (lit "nov") (lit "ember") refl)
                        (short_or_long-IsMonth (lit "dec") (lit "ember") refl)))))))))))
