-- ===== src/Python/Regex.antt =====
-- Regular expressions of Python's `re`, as far as the program uses them, with backtracking. Letters,
-- digits and the words of `\b` are the ASCII ones.
pub mod Languages
use mathlib.Core.List.{flat_map}
use edufurther_agent_be.Base.{
  ℕ, zero, suc, ◌+◌, ◌-◌, Bool, true, false, ◌&&◌, ◌||◌, List, [], ◌∷◌, ◌++◌, Text, length, take,
  leb, ◌==◌, if◌then◌else◌,
}

-- A pattern gives what is left of a text after each way to match its front, the preferred one first.
abbrev pub Pattern : Type 0
Pattern = Text → List Text

abbrev pub is_digit : ℕ → Bool
is_digit c = leb b'0' c && leb c b'9'

-- `\w`
abbrev pub is_word : ℕ → Bool
is_word c = is_digit c || (leb b'a' c && leb c b'z') || (leb b'A' c && leb c b'Z') || (c == b'_')

abbrev pub nothing : Pattern
nothing s = s ∷ []

unfoldable pub one : (ℕ → Bool) → Pattern
one p [] = []
one p (x ∷ xs) = if p x then xs ∷ [] else []

infixr 7 ◌then_◌
abbrev pub ◌then_◌ : Pattern → Pattern → Pattern
◌then_◌ p q s = flat_map q (p s)

infixr 6 ◌or_◌
abbrev pub ◌or_◌ : Pattern → Pattern → Pattern
◌or_◌ p q s = p s ++ q s

-- `(?:p)?`
abbrev pub optionally : Pattern → Pattern
optionally p s = p s ++ s ∷ []

-- `[p]*`, the longest run first
unfoldable pub many : (ℕ → Bool) → Pattern
many p [] = [] ∷ []
many p (x ∷ xs) = let longer = many p xs in if p x then longer ++ (x ∷ xs) ∷ [] else (x ∷ xs) ∷ []

abbrev pub some_of : (ℕ → Bool) → Pattern
some_of p = one p then_ many p

-- A literal, and a literal under `re.IGNORECASE`, whose letters are given small.
unfoldable pub literal : Text → Pattern
literal [] s = s ∷ []
literal (c ∷ cs) [] = []
literal (c ∷ cs) (x ∷ xs) = let rest = literal cs xs in if c == x then rest else []

unfoldable pub small_literal : Text → Pattern
small_literal [] s = s ∷ []
small_literal (c ∷ cs) [] = []
small_literal (c ∷ cs) (x ∷ xs) =
    let rest = small_literal cs xs in
    if (c == x) || ((c == x + 32) && leb b'A' x && leb x b'Z') then rest else []

abbrev pub any_of : List Pattern → Pattern
any_of [] s = []
any_of (p ∷ ps) s = p s ++ any_of ps s

-- `\b` after a word character
abbrev pub word_end : Pattern
word_end [] = [] ∷ []
word_end (x ∷ xs) = if is_word x then [] else (x ∷ xs) ∷ []

-- A pattern that is told whether the character before it is a word character.
abbrev pub Search : Type 0
Search = Bool → Pattern

-- `\b` before a word character
abbrev pub at_word_start : Pattern → Search
at_word_start p true s = []
at_word_start p false s = p s

-- How many characters the preferred match takes.
unfoldable pub matched : Search → Bool → Text → ℕ
matched p after_word s = elim (p after_word s) [ [] ↦ 0 | rest ∷ rests ↦ length s - length rest ]

-- `findall`, for a pattern that matches no empty text: `busy` characters are still part of the last
-- match.
unfoldable pub findall_from : Search → Bool → ℕ → Text → List Text
unfolding matched
findall_from p after_word busy [] = []
findall_from p after_word (suc busy) (x ∷ xs) = findall_from p (is_word x) busy xs
findall_from p after_word zero (x ∷ xs) =
    let n = matched p after_word (x ∷ xs) in
    let rest = findall_from p (is_word x) (n - 1) xs in
    if n == 0 then rest else take n (x ∷ xs) ∷ rest

unfoldable pub findall : Search → Text → List Text
unfolding findall_from
findall p s = findall_from p false 0 s

-- `sub` with a replacement.
unfoldable pub sub_from : Search → Text → Bool → ℕ → Text → Text
unfolding matched
sub_from p new after_word busy [] = []
sub_from p new after_word (suc busy) (x ∷ xs) = sub_from p new (is_word x) busy xs
sub_from p new after_word zero (x ∷ xs) =
    let n = matched p after_word (x ∷ xs) in
    let rest = sub_from p new (is_word x) (n - 1) xs in if n == 0 then x ∷ rest else new ++ rest

unfoldable pub sub : Search → Text → Text → Text
unfolding sub_from
sub p new s = sub_from p new false 0 s

-- A pattern that looks at nothing before it.
abbrev pub anywhere : Pattern → Search
anywhere p after_word s = p s
