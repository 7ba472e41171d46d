-- ===== src/Base/Strings.antt =====
-- Python's `str` as the list of its code points, and the string methods that the program calls.
use Prim.Native.Nat.{ℕ, zero, suc, ◌+◌, ◌/◌, ◌%◌}
use Prim.Native.Char.{code}
use Prim.Native.String.{String}
use mathlib.Core.Path.{◌≡◌, refl}
use mathlib.Core.Bool.{Bool, true, false, ◌&&◌, ◌||◌}
use mathlib.Core.List.{List, [], ◌∷◌, ◌++◌, map, reverse}
use native.Mathlib.Omega.{arith}
use edufurther_agent_be.Base.Tests.{if◌then◌else◌, leb, ltb, ◌==◌}

abbrev pub Text : Type 0
Text = List ℕ

-- A literal. It stays shut, so that proofs treat two literals as unknown texts.
unfoldable pub lit : String → Text
lit String.[] = []
lit (String.◌∷◌ c s) = code c ∷ lit s

-- `a == b`
unfoldable pub text_eq : Text → Text → Bool
text_eq [] [] = true
text_eq (x ∷ xs) (y ∷ ys) = (x == y) && text_eq xs ys
text_eq _ _ = false

pub text_eq_refl : (a : Text) → text_eq a a ≡ true
unfolding text_eq
text_eq_refl [] = refl
text_eq_refl (x ∷ xs) = ground (arith, text_eq_refl xs)

pub text_eq→eq : (a b : Text) → text_eq a b ≡ true → a ≡ b
unfolding text_eq
text_eq→eq [] [] h = refl
text_eq→eq [] (y ∷ b) h = ground arith
text_eq→eq (x ∷ a) [] h = ground arith
text_eq→eq (x ∷ a) (y ∷ b) h = ground (arith, text_eq→eq a b)

pub eq→text_eq : (a b : Text) → a ≡ b → text_eq a b ≡ true
eq→text_eq a b h = rw h (text_eq_refl b)

-- `text in texts`
unfoldable pub contains_text : Text → List Text → Bool
contains_text a [] = false
contains_text a (b ∷ bs) = text_eq a b || contains_text a bs

-- `b.startswith(a)`
unfoldable pub starts_with : Text → Text → Bool
starts_with [] b = true
starts_with (x ∷ a) (y ∷ b) = (x == y) && starts_with a b
starts_with (x ∷ a) [] = false

-- `b.endswith(a)`
unfoldable pub ends_with : Text → Text → Bool
unfolding starts_with
ends_with a b = starts_with (reverse a) (reverse b)

-- `a in b`
unfoldable pub occurs_in : Text → Text → Bool
unfolding starts_with
occurs_in a [] = starts_with a []
occurs_in a (y ∷ b) = starts_with a (y ∷ b) || occurs_in a b

-- ASCII `str.lower`
unfoldable pub lower : Text → Text
lower = map (λ c. if leb b'A' c && leb c b'Z' then c + 32 else c)

-- The whitespace of `str.strip`: tab to carriage return, the separators 28 to 31, the space, and
-- the breaking spaces outside ASCII.
unfoldable pub is_space : ℕ → Bool
is_space c =
    (leb 9 c && leb c 13)
    || (leb 28 c && leb c 32)
    || (c == 0x85)
    || (c == 0xA0)
    || (c == 0x1680)
    || (leb 0x2000 c && leb c 0x200A)
    || (c == 0x2028)
    || (c == 0x2029)
    || (c == 0x202F)
    || (c == 0x205F)
    || (c == 0x3000)

-- Drops the leading characters that satisfy `p`.
unfoldable pub drop_while : (ℕ → Bool) → Text → Text
drop_while p [] = []
drop_while p (x ∷ xs) = if p x then drop_while p xs else x ∷ xs

-- `s.strip()`, and `s.lstrip` and `s.rstrip` by a test
unfoldable pub rstrip_by : (ℕ → Bool) → Text → Text
unfolding drop_while
rstrip_by p s = reverse (drop_while p (reverse s))

unfoldable pub strip : Text → Text
unfolding drop_while rstrip_by is_space
strip s = rstrip_by is_space (drop_while is_space s)

-- `s.split(c)`: the pieces between the separators, the first one first.
abbrev pub push_head : ℕ → List Text → List Text
push_head x [] = (x ∷ []) ∷ []
push_head x (w ∷ ws) = (x ∷ w) ∷ ws

unfoldable pub split_on : ℕ → Text → List Text
split_on c [] = [] ∷ []
split_on c (x ∷ xs) = let rest = split_on c xs in if x == c then [] ∷ rest else push_head x rest

-- `sep.join(parts)`
unfoldable pub join : Text → List Text → Text
join sep [] = []
join sep (w ∷ []) = w
join sep (w ∷ v ∷ ws) = w ++ sep ++ join sep (v ∷ ws)

-- The decimal digits of a number, `str(n)`; a number has fewer digits than it has units.
unfoldable pub decimal_from : ℕ → ℕ → Text → Text
decimal_from zero n acc = acc
decimal_from (suc fuel) n acc =
    let rest = decimal_from fuel (n / 10) ((48 + n % 10) ∷ acc) in
    if ltb n 10 then (48 + n) ∷ acc else rest

unfoldable pub show_nat : ℕ → Text
unfolding decimal_from
show_nat n = decimal_from (suc n) n []
