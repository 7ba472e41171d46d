-- ===== src/Scholarship/FactMatching/Laws.antt =====
-- Agreement of amounts and of deadlines.
use edufurther_agent_be.Base.{
  ◌≡◌, refl, sym, ap, ◌∙◌, ◌↔◌, ◌⊎◌, inl, inr, Bool, true, Option, none, some, List, [], ◌∷◌, Text,
  text_eq, text_eq_refl, text_eq→eq, eq→text_eq, arith, ==_refl, Bool-cases,
}
use edufurther_agent_be.Scholarship.FactMatching.Amounts.{
  Decimal, decimal_eq, amount_eq, both, parse_amount, amounts_match,
}
use edufurther_agent_be.Scholarship.FactMatching.Deadlines.{
  Date, Reading, date_eq, is_date, strptime, first_format, deadline_formats, parse_deadline,
  deadlines_match,
}

module _ {A : Type 0} (eq : A → A → Bool) where
  both_uncomparable : (a b : Option A) → (both eq a b ≡ none) ↔ ((a ≡ none) ⊎ (b ≡ none))
  both_uncomparable none b = ground arith
  both_uncomparable (some a) none = ground arith
  both_uncomparable (some a) (some b) = ground arith

  both_comm : ((x y : A) → eq x y ≡ eq y x) → (a b : Option A) → both eq a b ≡ both eq b a
  both_comm h none none = refl
  both_comm h none (some b) = refl
  both_comm h (some a) none = refl
  both_comm h (some a) (some b) = ap some (h a b)

  both_self :
      ((x : A) → eq x x ≡ true) → (a : Option A) → (both eq a a ≡ none) ⊎ (both eq a a ≡ some true)
  both_self h none = inl refl
  both_self h (some v) = inr (ap some (h v))

text_eq_comm : (a b : Text) → text_eq a b ≡ text_eq b a
text_eq_comm a b = elim (Bool-cases (text_eq a b)) [
  | inl e ↦ e ∙ sym (eq→text_eq b a (sym (text_eq→eq a b e)))
  | inr n ↦ elim (Bool-cases (text_eq b a)) [
    | inl e ↦ cc (eq→text_eq a b (sym (text_eq→eq b a e)))
    | inr m ↦ n ∙ sym m
  ]
]

decimal_eq_comm : (x y : Decimal) → decimal_eq x y ≡ decimal_eq y x
decimal_eq_comm x y = ground arith

amount_eq_comm : (x y : Text × Decimal) → amount_eq x y ≡ amount_eq y x
amount_eq_comm (c, x) (d, y) = rw (text_eq_comm c d, decimal_eq_comm x y)

amount_eq_refl : (x : Text × Decimal) → amount_eq x x ≡ true
amount_eq_refl (c, x) = rw (text_eq_refl c) (==_refl _)

date_eq_comm : (x y : Date) → date_eq x y ≡ date_eq y x
date_eq_comm x y = ground arith

date_eq_refl : (x : Date) → date_eq x x ≡ true
date_eq_refl x = ground arith

-- Amounts are compared exactly when both can be read; the answer does not depend on which one is the
-- claim; and an amount that can be compared agrees with itself.
pub amounts_match_lem :
    (a b : Text)
    → ((amounts_match a b ≡ none) ↔ ((parse_amount a ≡ none) ⊎ (parse_amount b ≡ none)))
      × (amounts_match a b ≡ amounts_match b a)
      × ((amounts_match a a ≡ none) ⊎ (amounts_match a a ≡ some true))
unfolding amounts_match
amounts_match_lem a b = (
  both_uncomparable amount_eq (parse_amount a) (parse_amount b),
  both_comm amount_eq amount_eq_comm (parse_amount a) (parse_amount b),
  both_self amount_eq amount_eq_refl (parse_amount a),
)

strptime-is_date :
    (f : Text → Reading) (s : Text) (d : Date) → strptime f s ≡ some d → is_date d ≡ true
unfolding strptime
strptime-is_date f s d h = ground arith

first_format-is_date :
    (fs : List (Text → Reading)) (s : Text) (d : Date)
    → first_format fs s ≡ some d
    → is_date d ≡ true
unfolding first_format
first_format-is_date [] s d h = cc
first_format-is_date (f ∷ fs) s d h =
    ground (arith, strptime-is_date f s d, first_format-is_date fs s d)

-- Whatever text is read as a deadline is a day of the calendar, in whichever format it was written.
pub parse_deadline-is_date :
    (raw : Text) (d : Date) → parse_deadline raw ≡ some d → is_date d ≡ true
unfolding parse_deadline
parse_deadline-is_date raw d h = first_format-is_date deadline_formats _ d h

-- Deadlines are compared exactly when both can be read; the answer does not depend on which one is
-- the claim; and a deadline that can be compared agrees with itself.
pub deadlines_match_lem :
    (a b : Text)
    → ((deadlines_match a b ≡ none) ↔ ((parse_deadline a ≡ none) ⊎ (parse_deadline b ≡ none)))
      × (deadlines_match a b ≡ deadlines_match b a)
      × ((deadlines_match a a ≡ none) ⊎ (deadlines_match a a ≡ some true))
unfolding deadlines_match
deadlines_match_lem a b = (
  both_uncomparable date_eq (parse_deadline a) (parse_deadline b),
  both_comm date_eq date_eq_comm (parse_deadline a) (parse_deadline b),
  both_self date_eq date_eq_refl (parse_deadline a),
)
