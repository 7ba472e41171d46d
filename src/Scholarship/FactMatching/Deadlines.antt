-- ===== src/Scholarship/FactMatching/Deadlines.antt =====
-- Deadlines: the formats of `datetime.strptime`, read as its regular expressions with backtracking,
-- and the comparison of dates.
use mathlib.Core.List.{flat_map}
use edufurther_agent_be.Base.{
  ℕ, ◌+◌, ◌-◌, ◌*◌, ◌%◌, Bool, false, not, ◌&&◌, ◌||◌, Option, none, some, List, [], ◌∷◌, ◌++◌, map,
  Text, lit, contains_text, strip, lower, starts_with, is_space, is_empty, keep, length, drop, leb,
  ◌==◌, if◌then◌else◌,
}
use edufurther_agent_be.Scholarship.FactMatching.Amounts.{is_digit, both}

pub record Date : Type 0 where
  pub year : ℕ
  pub month : ℕ
  pub day : ℕ

-- A parser gives every reading of a prefix with the rest, the preferred one first.
abbrev pub Parser : Type 0 → Type 0
Parser A = Text → List (A × Text)

infixl 5 ◌>>=◌ ◌>>◌
abbrev ◌>>=◌ : {A B : Type 0} → Parser A → (A → Parser B) → Parser B
◌>>=◌ p f s = flat_map (λ r. f r.0 r.1) (p s)

abbrev ◌>>◌ : {A B : Type 0} → Parser A → Parser B → Parser B
p >> q = p >>= λ _. q

abbrev pure : {A : Type 0} → A → Parser A
pure a s = (a, s) ∷ []

-- One character that satisfies `p`.
abbrev one : (ℕ → Bool) → Parser ℕ
one p [] = []
one p (x ∷ xs) = if p x then (x, xs) ∷ [] else []

infixr 6 ◌<|>◌
abbrev ◌<|>◌ : {A : Type 0} → Parser A → Parser A → Parser A
◌<|>◌ p q s = p s ++ q s

abbrev char : ℕ → Parser ℕ
char c = one (λ x. x == c)

-- A decimal digit by its value.
abbrev digit_in : ℕ → ℕ → Parser ℕ
digit_in lo hi s =
    map (λ r. (r.0 - b'0', r.1)) (one (λ c. leb (b'0' + lo) c && leb c (b'0' + hi)) s)

abbrev two_digits : ℕ → ℕ → ℕ → ℕ → Parser ℕ
two_digits a b c d = do x ← digit_in a b; y ← digit_in c d; pure (x * 10 + y)

-- `\s+`, the longest run first
spaces : Text → List (ℕ × Text)
spaces [] = []
spaces (x ∷ xs) = let longer = spaces xs in if is_space x then longer ++ (x, xs) ∷ [] else []

-- `%d`: 3[0-1]|[1-2]\d|0[1-9]|[1-9]| [1-9]
day_of_month : Parser ℕ
day_of_month =
    two_digits 3 3 0 1
    <|> two_digits 1 2 0 9
    <|> two_digits 0 0 1 9
    <|> digit_in 1 9
    <|> (char b' ' >> digit_in 1 9)

-- `%m`: 1[0-2]|0[1-9]|[1-9]
month_number : Parser ℕ
month_number = two_digits 1 1 0 2 <|> two_digits 0 0 1 9 <|> digit_in 1 9

-- `%Y`: \d\d\d\d
year : Parser ℕ
year = do a ← two_digits 0 9 0 9; b ← two_digits 0 9 0 9; pure (a * 100 + b)

month_names : List (Text × ℕ)
month_names =
    (lit "january", 1)
    ∷ (lit "february", 2)
    ∷ (lit "march", 3)
    ∷ (lit "april", 4)
    ∷ (lit "may", 5)
    ∷ (lit "june", 6)
    ∷ (lit "july", 7)
    ∷ (lit "august", 8)
    ∷ (lit "september", 9)
    ∷ (lit "october", 10)
    ∷ (lit "november", 11)
    ∷ (lit "december", 12)
    ∷ []

-- A name at the front, in any case.
named : List (Text × ℕ) → Parser ℕ
named [] s = []
named ((name, n) ∷ names) s =
    if starts_with name (lower s) then (n, drop (length name) s) ∷ named names s else named names s

-- `%b`: the names' first three letters
short : Text × ℕ → Text × ℕ
short (a ∷ b ∷ c ∷ rest, n) = (a ∷ b ∷ c ∷ [], n)
short (name, n) = (name, n)

abbrev pub Reading : Type 0
Reading = List (Date × Text)

month_day_year : Parser ℕ → Text → Reading
unfolding spaces day_of_month year
month_day_year month = do
  m ← month
  spaces
  d ← day_of_month
  spaces
  y ← year
  pure (record { year = y; month = m; day = d })

day_month_year : Parser ℕ → Parser ℕ → Text → Reading
unfolding day_of_month year
day_month_year separator month = do
  d ← day_of_month
  separator
  m ← month
  separator
  y ← year
  pure (record { year = y; month = m; day = d })

iso_date : Text → Reading
unfolding day_of_month year month_number
iso_date = do
  y ← year
  char b'-'
  m ← month_number
  char b'-'
  d ← day_of_month
  pure (record { year = y; month = m; day = d })

abbrev full_month : Parser ℕ
full_month = named month_names

abbrev short_month : Parser ℕ
short_month = named (map short month_names)

-- `_DEADLINE_FORMATS`
unfoldable pub deadline_formats : List (Text → Reading)
unfolding month_day_year day_month_year iso_date named short month_names spaces month_number
deadline_formats =
    month_day_year full_month
    ∷ day_month_year spaces full_month
    ∷ month_day_year short_month
    ∷ day_month_year spaces short_month
    ∷ iso_date
    ∷ day_month_year (char b'/') month_number
    ∷ []

abbrev pub is_leap : ℕ → Bool
is_leap y = (y % 4 == 0) && (not (y % 100 == 0) || (y % 400 == 0))

unfoldable pub days_in_month : ℕ → ℕ → ℕ
days_in_month y m =
    if m == 2
    then (if is_leap y then 29 else 28)
    else if (m == 4) || ((m == 6) || ((m == 9) || (m == 11)))
    then 30
    else 31

-- The arguments that `datetime` accepts.
unfoldable pub is_date : Date → Bool
unfolding days_in_month
is_date d =
    leb 1 d.year
    && (leb 1 d.month
        && (leb d.month 12 && (leb 1 d.day && leb d.day (days_in_month d.year d.month))))

-- `strptime(text, format).date()`: the preferred match, which has to be the whole text and a date;
-- `none` is its `ValueError`.
unfoldable pub strptime : (Text → Reading) → Text → Option Date
unfolding is_date
strptime format text = elim (format text) [
  | [] ↦ none
  | (d, rest) ∷ _ ↦ if is_empty rest && is_date d then some d else none
]

-- The first format that reads the text.
unfoldable pub first_format : List (Text → Reading) → Text → Option Date
unfolding strptime
first_format [] text = none
first_format (format ∷ formats) text =
    let rest = first_format formats text in
    elim (strptime format text) [ some d ↦ some d | none ↦ rest ]

-- Whether two letters are an ordinal suffix, in any case.
abbrev is_suffix : ℕ → ℕ → Bool
is_suffix a b = contains_text (lower (a ∷ b ∷ [])) (lit "st" ∷ lit "nd" ∷ lit "rd" ∷ lit "th" ∷ [])

-- `_ORDINAL_SUFFIX.sub(r"\1", text)`; `digits` says whether digits stand just before.
unfoldable pub drop_ordinals : Bool → Text → Text
drop_ordinals digits [] = []
drop_ordinals digits (a ∷ []) = a ∷ []
drop_ordinals digits (a ∷ b ∷ rest) =
    let dropped = drop_ordinals false rest in
    let kept = a ∷ drop_ordinals (is_digit a) (b ∷ rest) in
    if digits && is_suffix a b then dropped else kept

unfoldable pub parse_deadline : Text → Option Date
unfolding deadline_formats first_format drop_ordinals
parse_deadline raw =
    first_format deadline_formats (keep (λ c. not (c == b',')) (drop_ordinals false (strip raw)))

abbrev pub date_eq : Date → Date → Bool
date_eq a b = (a.year == b.year) && ((a.month == b.month) && (a.day == b.day))

unfoldable pub deadlines_match : Text → Text → Option Bool
deadlines_match a b = both date_eq (parse_deadline a) (parse_deadline b)
