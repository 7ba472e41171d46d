-- ===== src/Scholarship/Extraction/Amounts.antt =====
-- What an amount looks like that is extracted.
use edufurther_agent_be.Base.{
  ℕ, ◌≡◌, refl, ap, ◌∙◌, ◌⊎◌, inl, inr, Bool, true, ◌||◌, List, [], ◌∷◌, ◌++◌, Text, all,
  All-append, In, is_space, arith, ◌==◌,
}
use edufurther_agent_be.Python.Regex.{one, ◌then_◌, optionally, literal, word_end, is_digit}
use edufurther_agent_be.Python.Regex.Languages.{
  Language, Rest, Matches, Seq, weaken-Matches, then_-Matches, or_-Matches, optionally-Matches,
  one-Matches, many-Only, one-Only, some_of-Only, then_-Only, Only, literal-Matches,
  word_end-Matches, append-nil, at_word_start-Matches,
}
use edufurther_agent_be.Scholarship.Extraction.{
  currency_amount, figure, currency_code, currency_codes, codes_of, is_symbol,
}

abbrev pub is_figure_char : ℕ → Bool
is_figure_char c = is_digit c || ((c == b',') || (c == b'.'))

-- A digit, and then digits, commas and points.
abbrev pub IsFigure : Text → Type 0
IsFigure w =
    (d : ℕ) × (ds : Text) × (w ≡ d ∷ ds) × (is_digit d ≡ true) × (all is_figure_char ds ≡ true)

-- Nothing, or one white space.
abbrev pub IsGap : Text → Type 0
IsGap w = (w ≡ []) ⊎ ((c : ℕ) × (w ≡ c ∷ []) × (is_space c ≡ true))

abbrev pub IsSymbol : Text → Type 0
IsSymbol w = (c : ℕ) × (w ≡ c ∷ []) × (is_symbol c ≡ true)

abbrev pub IsCode : Text → Type 0
IsCode w = In w currency_codes

-- A figure behind a symbol or a code, or in front of a code, at most one white space apart.
abbrev pub IsAmount : Text → Type 0
IsAmount w =
    (sign : Text) × (gap : Text) × (number : Text) × IsGap gap
    × IsFigure number
    × (((w ≡ sign ++ (gap ++ number)) × (IsSymbol sign ⊎ IsCode sign))
        ⊎ ((w ≡ number ++ (gap ++ sign)) × IsCode sign))

abbrev Figures : Language
Figures = Only is_figure_char

figure-IsFigure : Matches IsFigure figure
unfolding figure
figure-IsFigure =
    weaken-Matches (Seq _ Figures) IsFigure figure
      (λ w (u, v, e, (c, f, h), b). (c, v, e ∙ ap (λ (t : Text). t ++ v) f, h, b))
      (then_-Matches _ Figures (one is_digit) _ (one-Matches is_digit) (
        then_-Only is_figure_char _ _
          (many-Only is_figure_char (λ c. is_digit c || (c == b',')) (λ c h. ground arith))
          (optionally-Matches Figures _ refl (
            then_-Only is_figure_char _ _
              (one-Only is_figure_char (λ c. c == b'.') (λ c h. ground arith))
              (some_of-Only is_figure_char is_digit (λ c h. ground arith))))))

codes_of-In : (codes : List Text) → Matches (λ w. In w codes) (codes_of codes)
codes_of-In [] = λ s. tt
codes_of-In (c ∷ cs) =
    or_-Matches (λ w. In w (c ∷ cs)) (literal c) (codes_of cs)
      (weaken-Matches _ (λ w. In w (c ∷ cs)) (literal c) (λ w e. inl e) (literal-Matches c))
      (weaken-Matches (λ w. In w cs) (λ w. In w (c ∷ cs)) (codes_of cs) (λ w k. inr k)
        (codes_of-In cs))

currency_code-IsCode : Matches IsCode currency_code
unfolding currency_code
currency_code-IsCode = codes_of-In currency_codes

space-IsGap : Matches IsGap (optionally (one is_space))
space-IsGap =
    optionally-Matches IsGap (one is_space) (inl refl)
      (weaken-Matches _ IsGap (one is_space) (λ w h. inr h) (one-Matches is_space))

symbol-IsAmount : Matches IsAmount (one is_symbol then_ optionally (one is_space) then_ figure)
symbol-IsAmount =
    weaken-Matches (Seq IsSymbol (Seq IsGap IsFigure)) IsAmount _
      (λ w (sign, v, e, s, (gap, number, f, g, n)).
        (sign, gap, number, g, n, inl (e ∙ ap (λ (t : Text). sign ++ t) f, inl s)))
      (then_-Matches IsSymbol (Seq IsGap IsFigure) _ _ (one-Matches is_symbol)
        (then_-Matches IsGap IsFigure _ _ space-IsGap figure-IsFigure))

code-IsAmount : Matches IsAmount (currency_code then_ optionally (one is_space) then_ figure)
code-IsAmount =
    weaken-Matches (Seq IsCode (Seq IsGap IsFigure)) IsAmount _
      (λ w (sign, v, e, s, (gap, number, f, g, n)).
        (sign, gap, number, g, n, inl (e ∙ ap (λ (t : Text). sign ++ t) f, inr s)))
      (then_-Matches IsCode (Seq IsGap IsFigure) _ _ currency_code-IsCode
        (then_-Matches IsGap IsFigure _ _ space-IsGap figure-IsFigure))

figure-IsAmount :
    Matches IsAmount (figure then_ optionally (one is_space) then_ currency_code then_ word_end)
figure-IsAmount =
    weaken-Matches (Seq IsFigure (Seq IsGap (Seq IsCode (λ w. w ≡ [])))) IsAmount _
      (λ w (number, v, e, n, (gap, u, f, g, (sign, end, k, s, z))).
        let whole : u ≡ sign = k ∙ ap (λ (t : Text). sign ++ t) z ∙ append-nil sign in
        (
          sign,
          gap,
          number,
          g,
          n,
          inr (
            e ∙ ap (λ (t : Text). number ++ t) f ∙ ap (λ (t : Text). number ++ (gap ++ t)) whole,
            s,
          ),
        ))
      (then_-Matches IsFigure _ _ _ figure-IsFigure (
        then_-Matches IsGap _ _ _ space-IsGap
          (then_-Matches IsCode (λ w. w ≡ []) _ _ currency_code-IsCode word_end-Matches)))

pub currency_amount-IsAmount : (after_word : Bool) → Matches IsAmount (currency_amount after_word)
unfolding currency_amount
currency_amount-IsAmount after_word s =
    All-append (Rest IsAmount s) _ _
      (All-append (Rest IsAmount s) _ _ (symbol-IsAmount s)
        (at_word_start-Matches IsAmount _ after_word code-IsAmount s))
      (at_word_start-Matches IsAmount _ after_word figure-IsAmount s)
