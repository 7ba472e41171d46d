-- ===== src/Scholarship/Extraction/Mentions.antt =====
-- Every mention that is extracted stands in the text as it is and is written as an amount or a date.
use edufurther_agent_be.Base.{
  ℕ, zero, suc, ◌-◌, ◌≡◌, ◌≢◌, refl, inl, inr, Bool, true, false, Option, List, [], ◌∷◌, Text, take,
  starts_with, occurs_in, All, Bool-cases, arith, ◌==◌,
}
use edufurther_agent_be.Python.Regex.{Search, findall, findall_from, matched, is_word}
use edufurther_agent_be.Python.Regex.Languages.{Language, Matches, findall_from-Language}
use edufurther_agent_be.Scholarship.Extraction.Amounts.{IsAmount, currency_amount-IsAmount}
use edufurther_agent_be.Scholarship.Extraction.Dates.{IsDate, month_name_date-IsDate}
use edufurther_agent_be.Scholarship.Extraction.{
  extract_candidate_facts, text_between, currency_amount, month_name_date,
}

starts_with-take : (n : ℕ) (s : Text) → starts_with (take n s) s ≡ true
unfolding starts_with
starts_with-take zero s = refl
starts_with-take (suc n) [] = refl
starts_with-take (suc n) (x ∷ xs) = ground (arith, starts_with-take n xs)

occurs_in-take : (n : ℕ) (x : ℕ) (xs : Text) → occurs_in (take n (x ∷ xs)) (x ∷ xs) ≡ true
unfolding occurs_in
occurs_in-take n x xs = rw (starts_with-take n (x ∷ xs)) refl

occurs_later : (a : Text) (x : ℕ) (xs : Text) → occurs_in a xs ≡ true → occurs_in a (x ∷ xs) ≡ true
unfolding occurs_in
occurs_later a x xs h = ground arith

-- A part of a text that is not empty.
abbrev pub IsPart : Text → Text → Type 0
IsPart text mention = (mention ≢ []) × (occurs_in mention text ≡ true)

All_later : (x : ℕ) (xs : Text) (ms : List Text) → All (IsPart xs) ms → All (IsPart (x ∷ xs)) ms
All_later x xs [] h = tt
All_later x xs (m ∷ ms) h = ((h.0.0, occurs_later m x xs h.0.1), All_later x xs ms h.1)

take_some : (n : ℕ) (x : ℕ) (xs : Text) → n ≢ 0 → take n (x ∷ xs) ≢ []
take_some zero x xs h = absurd (h refl)
take_some (suc n) x xs h = λ e. cc

pub findall_from-IsPart :
    (p : Search) (after_word : Bool) (busy : ℕ) (s : Text)
    → All (IsPart s) (findall_from p after_word busy s)
unfolding findall_from
findall_from-IsPart p after_word zero [] = tt
findall_from-IsPart p after_word (suc busy) [] = tt
findall_from-IsPart p after_word (suc busy) (x ∷ xs) =
    All_later x xs _ (findall_from-IsPart p (is_word x) busy xs)
findall_from-IsPart p after_word zero (x ∷ xs) =
    let n = matched p after_word (x ∷ xs) in
    let rest =
      All_later x xs _ (findall_from-IsPart p (is_word x) (matched p after_word (x ∷ xs) - 1) xs) in
    elim (Bool-cases (matched p after_word (x ∷ xs) == 0)) [
      | inl e ↦ rw e rest
      | inr e ↦ rw e ((take_some _ x xs (ground arith), occurs_in-take _ x xs), rest)
    ]

both : (P Q : Text → Type 0) (xs : List Text) → All P xs → All Q xs → All (λ x. P x × Q x) xs
both P Q [] h k = tt
both P Q (x ∷ xs) h k = ((h.0, k.0), both P Q xs h.1 k.1)

findall_written :
    (L : Language) (p : Search) (s : Text)
    → ((after_word : Bool) → Matches L (p after_word))
    → All (λ m. IsPart s m × L m) (findall p s)
unfolding findall
findall_written L p s m =
    both (IsPart s) L _ (findall_from-IsPart p false 0 s) (findall_from-Language L p m false 0 s)

-- Every amount and every date that is extracted stands in the title and the excerpt as it is. An
-- amount is digits, commas and points from a digit on, behind one of the three currency symbols or a
-- listed code, or in front of such a code, with at most one white space between the two. A date is a
-- word that begins as a month's name does, a text that begins with a digit, and a year of four
-- digits, the first two in either order, with nothing but white space and commas between them; or it
-- is a year, a month and a day in four, two and two digits with hyphens.
pub extract_candidate_facts_written :
    (title : Text) (excerpt : Option Text)
    → let text = text_between title excerpt in
      let facts = extract_candidate_facts title excerpt in
      All (λ m. IsPart text m × IsAmount m) facts.funding_mentions
      × All (λ m. IsPart text m × IsDate m) facts.deadline_mentions
unfolding extract_candidate_facts
extract_candidate_facts_written title excerpt = (
  findall_written IsAmount currency_amount (text_between title excerpt) currency_amount-IsAmount,
  findall_written IsDate month_name_date (text_between title excerpt) month_name_date-IsDate,
)
