-- ===== src/Scholarship/Extraction/Dates.antt =====
-- What a date looks like that is extracted.
use edufurther_agent_be.Base.{
  ℕ, ◌+◌, ◌≡◌, refl, sym, ap, ◌∙◌, ◌⊎◌, inl, inr, Bool, true, ◌||◌, [], ◌∷◌, ◌++◌, Text, lit,
  length, length-append, all, append_assoc, is_space, arith, ◌==◌,
}
use edufurther_agent_be.Python.Regex.{Pattern, ◌then_◌, optionally, some_of, is_digit}
use edufurther_agent_be.Python.Regex.Languages.{
  Language, Matches, Seq, weaken-Matches, then_-Matches, or_-Matches, optionally-Matches,
  one-Matches, free, Free, all-append, then_-word_end, one-Only, some_of-Only,
  at_word_start-Matches,
}
use edufurther_agent_be.Scholarship.Extraction.Months.{
  IsMonth, month_name-IsMonth, small_literal-Free,
}
use edufurther_agent_be.Scholarship.Extraction.{
  month_name_date, day_number, digit, comma, hyphen, year,
}

abbrev pub IsDigits : ℕ → Text → Type 0
IsDigits n w = (length w ≡ n) × (all is_digit w ≡ true)

-- A digit, with whatever follows it.
abbrev pub IsDay : Text → Type 0
IsDay w = (c : ℕ) × (rest : Text) × (w ≡ c ∷ rest) × (is_digit c ≡ true)

-- White space and commas.
abbrev pub is_between : ℕ → Bool
is_between c = is_space c || (c == b',')

abbrev pub Between : Text → Type 0
Between w = all is_between w ≡ true

-- Month, day and year, in this order or with the day in front, or year, month and day as numbers.
abbrev pub IsDate : Text → Type 0
IsDate w =
    ((month : Text) × (gap : Text) × (day : Text) × (sep : Text) × (year : Text) × IsMonth month
      × Between gap
      × IsDay day
      × Between sep
      × IsDigits 4 year
      × ((w ≡ month ++ (gap ++ (day ++ (sep ++ year))))
          ⊎ (w ≡ day ++ (gap ++ (month ++ (sep ++ year))))))
    ⊎ ((year : Text) × (month : Text) × (day : Text) × IsDigits 4 year
        × IsDigits 2 month
        × IsDigits 2 day
        × (w ≡ year ++ (b'-' ∷ (month ++ (b'-' ∷ day)))))

digit-IsDigits : Matches (IsDigits 1) digit
digit-IsDigits =
    weaken-Matches _ (IsDigits 1) digit (λ w (c, e, h). rw (e, h) (refl, refl))
      (one-Matches is_digit)

longer-Seq :
    (n : ℕ) (L : Language) (p : Pattern)
    → Matches (Seq (IsDigits n) L) p
    → Matches (Seq (IsDigits (n + 1)) L) (digit then_ p)
longer-Seq n L p m =
    weaken-Matches (Seq (IsDigits 1) (Seq (IsDigits n) L)) (Seq (IsDigits (n + 1)) L)
      (digit then_ p)
      (λ w (u, v, e, (k, a), (x, y, f, (l, b), h)). (
        u ++ x,
        y,
        e ∙ ap (λ (t : Text). u ++ t) f ∙ sym (append_assoc u x y),
        (length-append u x ∙ omega (arith, k, l), all-append is_digit u x a b),
        h,
      ))
      (then_-Matches (IsDigits 1) (Seq (IsDigits n) L) digit p digit-IsDigits m)

first_digit :
    (L : Language) (p : Pattern) → Matches L p → Matches (Seq (IsDigits 1) L) (digit then_ p)
first_digit L p m = then_-Matches (IsDigits 1) L digit p digit-IsDigits m

whole-IsDigits :
    (n : ℕ) (p : Pattern) → Matches (IsDigits n) p → Matches (IsDigits (n + 1)) (digit then_ p)
whole-IsDigits n p m =
    weaken-Matches (Seq (IsDigits 1) (IsDigits n)) (IsDigits (n + 1)) (digit then_ p)
      (λ w (u, v, e, (k, a), (l, b)). (
        ap length e ∙ length-append u v ∙ omega (arith, k, l),
        ap (all is_digit) e ∙ all-append is_digit u v a b,
      ))
      (first_digit (IsDigits n) p m)

pair-IsDigits : Matches (IsDigits 2) (digit then_ digit)
pair-IsDigits = whole-IsDigits 1 digit digit-IsDigits

year-IsDigits : Matches (IsDigits 4) year
year-IsDigits = whole-IsDigits 3 _ (whole-IsDigits 2 _ pair-IsDigits)

day_number-IsDay : Matches IsDay day_number
unfolding day_number
day_number-IsDay =
    weaken-Matches (Seq _ Free) IsDay day_number
      (λ w (u, v, e, (c, f, h), _). (c, v, e ∙ ap (λ (t : Text). t ++ v) f, h))
      (then_-Matches _ Free digit _ (one-Matches is_digit) (
        free (Seq Free Free) _ (
          then_-Matches Free Free _ _
            (optionally-Matches Free digit tt (free _ digit digit-IsDigits))
            (optionally-Matches Free _ tt (
              or_-Matches Free _ _ (small_literal-Free (lit "st")) (
                or_-Matches Free _ _ (small_literal-Free (lit "nd")) (
                  or_-Matches Free _ _ (small_literal-Free (lit "rd"))
                    (small_literal-Free (lit "th")))))))))

spaces-Between : Matches Between (some_of is_space)
spaces-Between = some_of-Only is_between is_space (λ c h. ground arith)

-- A comma or none, white space, and a year.
sep_year-Seq :
    Matches (Seq Between (IsDigits 4)) (optionally comma then_ some_of is_space then_ year)
sep_year-Seq =
    weaken-Matches (Seq Between (Seq Between (IsDigits 4))) (Seq Between (IsDigits 4)) _
      (λ w (c, u, e, h, (s, y, f, k, n)). (
        c ++ s,
        y,
        e ∙ ap (λ (t : Text). c ++ t) f ∙ sym (append_assoc c s y),
        all-append is_between c s h k,
        n,
      ))
      (then_-Matches Between (Seq Between (IsDigits 4)) _ _
        (optionally-Matches Between comma refl
          (one-Only is_between (λ c. c == b',') (λ c h. ground arith)))
        (then_-Matches Between (IsDigits 4) _ _ spaces-Between year-IsDigits))

-- What stands in front, white space, what stands behind it, and the year.
abbrev Dated : Language → Language → Language
Dated L M w =
    (u : Text) × (gap : Text) × (v : Text) × (sep : Text) × (year : Text) × L u
    × Between gap
    × M v
    × Between sep
    × IsDigits 4 year
    × (w ≡ u ++ (gap ++ (v ++ (sep ++ year))))

dated-Matches :
    (L M : Language) (p q : Pattern)
    → Matches L p
    → Matches M q
    → Matches
        (Dated L M)
        (p then_ some_of is_space then_ q then_ optionally comma then_ some_of is_space then_ year)
dated-Matches L M p q m n =
    weaken-Matches (Seq L (Seq Between (Seq M (Seq Between (IsDigits 4))))) (Dated L M) _
      (λ w (u, x, e, h, (gap, y, f, k, (v, z, g, l, (sep, year, i, o, d)))). (
        u,
        gap,
        v,
        sep,
        year,
        h,
        k,
        l,
        o,
        d,
        e
            ∙ ap (λ (t : Text). u ++ t)
                (f ∙ ap (λ (t : Text). gap ++ t) (g ∙ ap (λ (t : Text). v ++ t) i)),
      ))
      (then_-Matches L _ _ _ m
        (then_-Matches Between _ _ _ spaces-Between (then_-Matches M _ _ _ n sep_year-Seq)))

hyphen-Matches : Matches (λ w. w ≡ b'-' ∷ []) hyphen
hyphen-Matches =
    weaken-Matches _ (λ w. w ≡ b'-' ∷ []) hyphen
      (λ w (c, e, h). let same : c ≡ b'-' = ground arith in e ∙ ap (λ (x : ℕ). x ∷ []) same)
      (one-Matches (λ c. c == b'-'))

pair-Seq :
    (L : Language) (p : Pattern)
    → Matches L p
    → Matches (Seq (IsDigits 2) L) (digit then_ digit then_ p)
pair-Seq L p m = longer-Seq 1 L _ (first_digit L p m)

numbers-IsDate :
    Matches IsDate (year then_ hyphen then_ digit then_ digit then_ hyphen then_ digit then_ digit)
numbers-IsDate =
    weaken-Matches
      (Seq (IsDigits 4)
        (Seq (λ w. w ≡ b'-' ∷ []) (Seq (IsDigits 2) (Seq (λ w. w ≡ b'-' ∷ []) (IsDigits 2)))))
      IsDate _
      (λ w (y, u, e, h, (s, v, f, k, (mm, x, g, l, (t, dd, i, o, d)))). inr (
        y,
        mm,
        dd,
        h,
        l,
        d,
        e
            ∙ ap (λ (r : Text). y ++ r)
                (f
                  ∙ ap (λ (r : Text). r ++ v) k
                  ∙ ap (λ (r : Text). b'-' ∷ r)
                      (g ∙ ap (λ (r : Text). mm ++ r) (i ∙ ap (λ (r : Text). r ++ dd) o))),
      ))
      (then_-Matches (IsDigits 4) _ _ _ year-IsDigits (
        then_-Matches _ _ _ _ hyphen-Matches
          (pair-Seq _ _ (then_-Matches _ (IsDigits 2) _ _ hyphen-Matches pair-IsDigits))))

pub month_name_date-IsDate : (after_word : Bool) → Matches IsDate (month_name_date after_word)
unfolding month_name_date
month_name_date-IsDate after_word = at_word_start-Matches IsDate _ after_word (
    then_-word_end IsDate _ (
      or_-Matches IsDate _ _
        (weaken-Matches (Dated IsMonth IsDay) IsDate _
          (λ w (m, gap, d, sep, y, h, k, l, o, n, e). inl (m, gap, d, sep, y, h, k, l, o, n, inl e))
          (dated-Matches IsMonth IsDay _ _ month_name-IsMonth day_number-IsDay))
        (or_-Matches IsDate _ _
          (weaken-Matches (Dated IsDay IsMonth) IsDate _
            (λ w (d, gap, m, sep, y, h, k, l, o, n, e).
              inl (m, gap, d, sep, y, l, k, h, o, n, inr e))
            (dated-Matches IsDay IsMonth _ _ day_number-IsDay month_name-IsMonth))
          numbers-IsDate)))
