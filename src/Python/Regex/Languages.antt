-- ===== src/Python/Regex/Languages.antt =====
-- What the matches of a pattern look like: a pattern takes fronts of a text that are in a language.
use mathlib.Core.List.{flat_map}
use mathlib.Core.Path.{subst}
use edufurther_agent_be.Base.{
  ℕ, zero, suc, ◌-◌, ◌≡◌, refl, sym, ap, ◌∙◌, inl, inr, Bool, true, false, List, [], ◌∷◌, ◌++◌,
  Text, length, length-append, append_assoc, All-append, All-mono, take, all, All, Bool-cases,
  arith, ◌==◌,
}
use edufurther_agent_be.Python.Regex.{
  Pattern, Search, one, ◌then_◌, ◌or_◌, optionally, many, some_of, literal, word_end, at_word_start,
  matched, is_word, findall_from,
}

abbrev pub Language : Type 1
Language = Text → Type 0

-- What is left of a text, behind a front in the language.
abbrev pub Rest : Language → Text → Text → Type 0
Rest L s r = (front : Text) × (s ≡ front ++ r) × L front

abbrev pub Matches : Language → Pattern → Type 0
Matches L p = (s : Text) → All (Rest L s) (p s)

-- One language in front of another.
abbrev pub Seq : Language → Language → Language
Seq L M w = (u : Text) × (v : Text) × (w ≡ u ++ v) × L u × M v

All-flat_map :
    (P Q : Text → Type 0) (f : Text → List Text) (xs : List Text)
    → ((x : Text) → P x → All Q (f x))
    → All P xs
    → All Q (flat_map f xs)
unfolding flat_map
All-flat_map P Q f [] g h = tt
All-flat_map P Q f (x ∷ xs) g h =
    All-append Q (f x) (flat_map f xs) (g x h.0) (All-flat_map P Q f xs g h.1)

pub weaken-Matches :
    (L M : Language) (p : Pattern) → ((w : Text) → L w → M w) → Matches L p → Matches M p
weaken-Matches L M p f m s =
    All-mono (Rest L s) (Rest M s) (p s) (λ r h. (h.0, h.1, f h.0 h.2)) (m s)

pub then_-Matches :
    (L M : Language) (p q : Pattern) → Matches L p → Matches M q → Matches (Seq L M) (p then_ q)
then_-Matches L M p q m n s =
    All-flat_map (Rest L s) (Rest (Seq L M) s) q (p s)
      (λ r h.
        All-mono (Rest M r) (Rest (Seq L M) s) (q r)
          (λ t k. (
            h.0 ++ k.0,
            h.1 ∙ ap (λ (x : Text). h.0 ++ x) k.1 ∙ sym (append_assoc h.0 k.0 t),
            (h.0, k.0, refl, h.2, k.2),
          ))
          (n r))
      (m s)

pub or_-Matches : (L : Language) (p q : Pattern) → Matches L p → Matches L q → Matches L (p or_ q)
or_-Matches L p q m n s = All-append (Rest L s) (p s) (q s) (m s) (n s)

pub optionally-Matches :
    (L : Language) (p : Pattern) → L [] → Matches L p → Matches L (optionally p)
optionally-Matches L p e m s = All-append (Rest L s) (p s) (s ∷ []) (m s) (([], refl, e), tt)

pub one-Matches : (f : ℕ → Bool) → Matches (λ w. (c : ℕ) × (w ≡ c ∷ []) × (f c ≡ true)) (one f)
unfolding one
one-Matches f [] = tt
one-Matches f (x ∷ xs) = elim (Bool-cases (f x)) [
  | inl y ↦ rw y ((x ∷ [], refl, (x, refl, y)), tt)
  | inr n ↦ rw n tt
]

pub many-Matches : (f : ℕ → Bool) → Matches (λ w. all f w ≡ true) (many f)
unfolding many
many-Matches f [] = (([], refl, refl), tt)
many-Matches f (x ∷ xs) = elim (Bool-cases (f x)) [
  | inl y ↦ rw y (
      All-append (Rest (λ w. all f w ≡ true) (x ∷ xs)) (many f xs) ((x ∷ xs) ∷ [])
        (All-mono (Rest (λ w. all f w ≡ true) xs) (Rest (λ w. all f w ≡ true) (x ∷ xs)) (many f xs)
          (λ r h. (x ∷ h.0, ap (λ (t : Text). x ∷ t) h.1, rw (y, h.2) refl)) (many-Matches f xs))
        (([], refl, refl), tt))
  | inr n ↦ rw n (([], refl, refl), tt)
]

-- Texts of characters of one kind.
abbrev pub Only : (ℕ → Bool) → Language
Only g w = all g w ≡ true

pub all-append :
    (f : ℕ → Bool) (a b : Text) → all f a ≡ true → all f b ≡ true → all f (a ++ b) ≡ true
all-append f [] b h k = k
all-append f (x ∷ a) b h k = ground (arith, all-append f a b)

all_mono :
    (f g : ℕ → Bool) (w : Text)
    → ((c : ℕ) → f c ≡ true → g c ≡ true)
    → all f w ≡ true
    → all g w ≡ true
all_mono f g [] m h = refl
all_mono f g (x ∷ w) m h = ground (arith, m x, all_mono f g w m)

module _ (g : ℕ → Bool) where
  pub one-Only : (f : ℕ → Bool) → ((c : ℕ) → f c ≡ true → g c ≡ true) → Matches (Only g) (one f)
  one-Only f m =
      weaken-Matches _ (Only g) (one f) (λ w (c, e, h). rw (e, m c h) refl) (one-Matches f)

  pub many-Only : (f : ℕ → Bool) → ((c : ℕ) → f c ≡ true → g c ≡ true) → Matches (Only g) (many f)
  many-Only f m = weaken-Matches _ (Only g) (many f) (λ w. all_mono f g w m) (many-Matches f)

  pub then_-Only :
      (p q : Pattern) → Matches (Only g) p → Matches (Only g) q → Matches (Only g) (p then_ q)
  then_-Only p q m n =
      weaken-Matches (Seq (Only g) (Only g)) (Only g) (p then_ q)
        (λ w (u, v, e, a, b). rw e (all-append g u v a b)) (then_-Matches (Only g) (Only g) p q m n)

  pub some_of-Only :
      (f : ℕ → Bool) → ((c : ℕ) → f c ≡ true → g c ≡ true) → Matches (Only g) (some_of f)
  some_of-Only f m = then_-Only (one f) (many f) (one-Only f m) (many-Only f m)

-- Any text, for what a match is not described by.
abbrev pub Free : Language
Free w = Unit

pub free : (L : Language) (p : Pattern) → Matches L p → Matches Free p
free L p m = weaken-Matches L Free p (λ w h. tt) m

pub append-nil : (t : Text) → t ++ [] ≡ t
append-nil [] = refl
append-nil (x ∷ t) = ap (λ (s : Text). x ∷ s) (append-nil t)

pub word_end-Matches : Matches (λ w. w ≡ []) word_end
word_end-Matches [] = (([], refl, refl), tt)
word_end-Matches (x ∷ xs) = elim (Bool-cases (is_word x)) [
  | inl y ↦ rw y tt
  | inr n ↦ rw n (([], refl, refl), tt)
]

-- A pattern that has to end a word takes what it takes without that.
pub then_-word_end : (L : Language) (p : Pattern) → Matches L p → Matches L (p then_ word_end)
then_-word_end L p m =
    weaken-Matches (Seq L (λ w. w ≡ [])) L (p then_ word_end)
      (λ w (u, v, e, h, z). subst L (sym (e ∙ ap (λ (t : Text). u ++ t) z ∙ append-nil u)) h)
      (then_-Matches L (λ w. w ≡ []) p word_end m word_end-Matches)

pub literal-Matches : (l : Text) → Matches (λ w. w ≡ l) (literal l)
unfolding literal
literal-Matches [] s = (([], refl, refl), tt)
literal-Matches (c ∷ cs) [] = tt
literal-Matches (c ∷ cs) (x ∷ xs) = elim (Bool-cases (c == x)) [
  | inl y ↦
      let same : c ≡ x = ground arith in
      rw (y, sym same)
        (All-mono (Rest (λ w. w ≡ cs) xs) (Rest (λ w. w ≡ c ∷ cs) (c ∷ xs)) (literal cs xs)
          (λ r h. (c ∷ h.0, ap (λ (t : Text). c ∷ t) h.1, ap (λ (t : Text). c ∷ t) h.2))
          (literal-Matches cs xs))
  | inr n ↦ rw n tt
]

pub at_word_start-Matches :
    (L : Language) (p : Pattern) (after_word : Bool)
    → Matches L p
    → Matches L (at_word_start p after_word)
at_word_start-Matches L p true m s = tt
at_word_start-Matches L p false m s = m s

take-append : (front rest : Text) → take (length front) (front ++ rest) ≡ front
take-append [] [] = refl
take-append [] (x ∷ rest) = refl
take-append (x ∷ front) rest = ap (λ (t : Text). x ∷ t) (take-append front rest)

-- The preferred match is in the language, where it takes something.
first-Language :
    (L : Language) (s : Text) (rests : List Text)
    → All (Rest L s) rests
    → let n : ℕ = elim rests [ [] ↦ 0 | r ∷ rs ↦ length s - length r ] in
      (n == 0) ≡ false → L (take n s)
first-Language L s [] h e = absurd cc
first-Language L s (r ∷ rs) ((front, same, fine), others) e =
    let cut : length s - length r ≡ length front =
      ap (λ (t : Text). length t - length r) same
      ∙ ap (λ (k : ℕ). k - length r) (length-append front r)
      ∙ omega arith in
    rw (cut, same, take-append front r) fine

pub findall_from-Language :
    (L : Language) (p : Search)
    → ((after_word : Bool) → Matches L (p after_word))
    → (after_word : Bool) (busy : ℕ) (s : Text) → All L (findall_from p after_word busy s)
unfolding findall_from matched
findall_from-Language L p m after_word zero [] = tt
findall_from-Language L p m after_word (suc busy) [] = tt
findall_from-Language L p m after_word (suc busy) (x ∷ xs) =
    findall_from-Language L p m (is_word x) busy xs
findall_from-Language L p m after_word zero (x ∷ xs) =
    let rest = findall_from-Language L p m (is_word x) (matched p after_word (x ∷ xs) - 1) xs in
    elim (Bool-cases (matched p after_word (x ∷ xs) == 0)) [
      | inl e ↦ rw e rest
      | inr e ↦
          rw e (first-Language L (x ∷ xs) (p after_word (x ∷ xs)) (m after_word (x ∷ xs)) e, rest)
    ]
