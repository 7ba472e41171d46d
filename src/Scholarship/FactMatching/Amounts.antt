-- ===== src/Scholarship/FactMatching/Amounts.antt =====
-- Amounts of money: the pattern, its reading, and the comparison.
use edufurther_agent_be.Base.{
  ℕ, ◌+◌, ◌-◌, ◌*◌, ◌^◌, Bool, not, ◌&&◌, ◌||◌, Option, none, some, [], ◌∷◌, ◌++◌, Text, lit,
  text_eq, strip, is_space, is_empty, keep, length, leb, ◌==◌, if◌then◌else◌,
}

-- The ASCII digits and capitals.
abbrev pub is_digit : ℕ → Bool
is_digit c = leb b'0' c && leb c b'9'

abbrev is_capital : ℕ → Bool
is_capital c = leb b'A' c && leb c b'Z'

-- The longest prefix of characters that satisfy `p`, and the rest.
unfoldable pub span : (ℕ → Bool) → Text → Text × Text
span p [] = ([], [])
span p (x ∷ xs) = let (ys, zs) = span p xs in if p x then (x ∷ ys, zs) else ([], x ∷ xs)

-- `\s?`
unfoldable pub drop_space : Text → Text
drop_space [] = []
drop_space (x ∷ xs) = if is_space x then xs else x ∷ xs

-- `\.\d+`, behind digits and commas that are read already
unfoldable pub take_fraction : Text → Text → Text × Text
unfolding span
take_fraction whole [] = (whole, [])
take_fraction whole (x ∷ xs) =
    let (ds, rest) = span is_digit xs in
    if (x == b'.') && not (is_empty ds) then (whole ++ x ∷ ds, rest) else (whole, x ∷ xs)

-- `[\d,]+(?:\.\d+)?`
unfoldable pub take_number : Text → Option (Text × Text)
unfolding take_fraction
take_number s =
    let (whole, rest) = span (λ c. is_digit c || (c == b',')) s in
    if is_empty whole then none else some (take_fraction whole rest)

-- The number, where nothing stands behind it.
unfoldable pub whole_number : Text → Option Text
unfolding take_number
whole_number s = elim (take_number s) [
  | none ↦ none
  | some (digits, rest) ↦ if is_empty rest then some digits else none
]

-- `[A-Z]{3}` and the rest
unfoldable pub take_code : Text → Option (Text × Text)
take_code (a ∷ b ∷ c ∷ rest) =
    if is_capital a && (is_capital b && is_capital c) then some (a ∷ b ∷ c ∷ [], rest) else none
take_code _ = none

-- The three alternatives of `_AMOUNT_PATTERN`, each a currency and its digits.
abbrev labelled : Text → Option Text → Option (Text × Text)
labelled currency none = none
labelled currency (some digits) = some (currency, digits)

unfoldable pub symbol_amount : Text → Option (Text × Text)
unfolding whole_number drop_space
symbol_amount [] = none
symbol_amount (x ∷ xs) =
    if (x == 0xA3) || ((x == b'$') || (x == 0x20AC))
    then labelled (x ∷ []) (whole_number (drop_space xs))
    else none

unfoldable pub code_amount : Text → Option (Text × Text)
unfolding whole_number drop_space take_code
code_amount s = elim (take_code s) [
  | none ↦ none
  | some (currency, rest) ↦ labelled currency (whole_number (drop_space rest))
]

unfoldable pub amount_code : Text → Option (Text × Text)
unfolding take_number drop_space take_code
amount_code s = elim (take_number s) [
  | none ↦ none
  | some (digits, rest) ↦ elim (take_code (drop_space rest)) [
    | none ↦ none
    | some (currency, end) ↦ if is_empty end then some (currency, digits) else none
  ]
]

abbrev or_else : Option (Text × Text) → Option (Text × Text) → Option (Text × Text)
or_else none b = b
or_else (some a) b = some a

unfoldable pub match_amount : Text → Option (Text × Text)
unfolding symbol_amount code_amount amount_code
match_amount s = or_else (symbol_amount s) (or_else (code_amount s) (amount_code s))

-- `_CURRENCY_ALIASES.get(currency, currency)`
unfoldable pub currency_alias : Text → Text
currency_alias currency =
    if text_eq currency (lit "GBP")
    then 0xA3 ∷ []
    else if text_eq currency (lit "USD")
    then b'$' ∷ []
    else if text_eq currency (lit "EUR")
    then 0x20AC ∷ []
    else currency

-- A decimal is `digits / 10 ^ scale`.
pub record Decimal : Type 0 where
  pub digits : ℕ
  pub scale : ℕ

-- Decimals are equal by value: 13000 and 13000.00 are one.
abbrev pub decimal_eq : Decimal → Decimal → Bool
decimal_eq a b = (a.digits * 10 ^ b.scale) == (b.digits * 10 ^ a.scale)

unfoldable pub digits_value : ℕ → Text → ℕ
digits_value acc [] = acc
digits_value acc (c ∷ cs) = digits_value (acc * 10 + (c - b'0')) cs

-- `Decimal(text)` of digits with at most one point; without a digit it is an `InvalidOperation`.
unfoldable pub read_decimal : Text → Option Decimal
unfolding span digits_value
read_decimal s =
    let (whole, rest) = span is_digit s in
    let fraction = keep is_digit rest in
    if is_empty whole && is_empty fraction
    then none
    else some (record { digits = digits_value 0 (whole ++ fraction); scale = length fraction })

unfoldable pub parse_amount : Text → Option (Text × Decimal)
unfolding match_amount currency_alias read_decimal
parse_amount raw = elim (match_amount (strip raw)) [
  | none ↦ none
  | some (currency, digits) ↦ elim (read_decimal (keep (λ c. not (c == b',')) digits)) [
    | none ↦ none
    | some value ↦ some (currency_alias currency, value)
  ]
]

abbrev pub amount_eq : Text × Decimal → Text × Decimal → Bool
amount_eq (c, x) (d, y) = text_eq c d && decimal_eq x y

abbrev pub both {ℓ} : {A : Type ℓ} → (A → A → Bool) → Option A → Option A → Option Bool
both eq (some a) (some b) = some (eq a b)
both eq none b = none
both eq (some a) none = none

unfoldable pub amounts_match : Text → Text → Option Bool
amounts_match a b = both amount_eq (parse_amount a) (parse_amount b)
