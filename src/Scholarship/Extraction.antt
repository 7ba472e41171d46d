-- ===== src/Scholarship/Extraction.antt =====
-- src/app/usecases/scholarship_finder/extraction.py: the amounts, the dates and the phrases that are
-- read off a text.
pub mod Amounts
pub mod Months
pub mod Dates
pub mod Mentions
use edufurther_agent_be.Base.{
  ℕ, Bool, ◌&&◌, ◌||◌, Option, none, some, List, [], ◌∷◌, ◌++◌, Text, lit, occurs_in, lower, any,
  find_first, join, is_empty, is_space, ◌==◌, get_or, if◌then◌else◌, not,
}
use edufurther_agent_be.Python.Regex.{
  Pattern, Search, one, ◌then_◌, ◌or_◌, optionally, many, some_of, literal, small_literal, any_of,
  word_end, at_word_start, anywhere, nothing, is_digit, findall,
}
use edufurther_agent_be.Scholarship.Schemas.{Facts}

abbrev pub codes_of : List Text → Pattern
codes_of [] = any_of []
codes_of (c ∷ cs) = literal c or_ codes_of cs

unfoldable pub currency_codes : List Text
currency_codes =
    lit "GBP"
    ∷ lit "USD"
    ∷ lit "EUR"
    ∷ lit "CAD"
    ∷ lit "AUD"
    ∷ lit "NZD"
    ∷ lit "CHF"
    ∷ lit "JPY"
    ∷ lit "CNY"
    ∷ lit "INR"
    ∷ lit "ZAR"
    ∷ lit "SEK"
    ∷ lit "NOK"
    ∷ lit "DKK"
    ∷ lit "SGD"
    ∷ lit "HKD"
    ∷ lit "NGN"
    ∷ lit "KES"
    ∷ lit "GHS"
    ∷ lit "TRY"
    ∷ lit "BRL"
    ∷ lit "MXN"
    ∷ lit "PLN"
    ∷ lit "CZK"
    ∷ lit "HUF"
    ∷ lit "RON"
    ∷ lit "AED"
    ∷ lit "SAR"
    ∷ []

unfoldable pub currency_code : Pattern
unfolding currency_codes
currency_code = codes_of currency_codes

-- `[£$€]`
abbrev pub is_symbol : ℕ → Bool
is_symbol c = (c == 0xA3) || (c == b'$') || (c == 0x20AC)

-- `[\d][\d,]*(?:\.\d+)?`
unfoldable pub figure : Pattern
figure =
    one is_digit
    then_ many (λ c. is_digit c || (c == b','))
    then_ optionally (one (λ c. c == b'.') then_ some_of is_digit)

unfoldable pub currency_amount : Search
unfolding currency_code figure
currency_amount after_word s =
    (one is_symbol then_ optionally (one is_space) then_ figure) s
    ++ at_word_start (currency_code then_ optionally (one is_space) then_ figure) after_word s
    ++ at_word_start (figure then_ optionally (one is_space) then_ currency_code then_ word_end)
        after_word s

abbrev pub short_or_long : Text → Text → Pattern
short_or_long short rest = small_literal short then_ optionally (small_literal rest)

unfoldable pub month_name : Pattern
month_name =
    short_or_long (lit "jan") (lit "uary")
    or_ short_or_long (lit "feb") (lit "ruary")
    or_ short_or_long (lit "mar") (lit "ch")
    or_ short_or_long (lit "apr") (lit "il")
    or_ small_literal (lit "may")
    or_ short_or_long (lit "jun") (lit "e")
    or_ short_or_long (lit "jul") (lit "y")
    or_ short_or_long (lit "aug") (lit "ust")
    or_ short_or_long (lit "sep") (lit "tember")
    or_ short_or_long (lit "oct") (lit "ober")
    or_ short_or_long (lit "nov") (lit "ember")
    or_ short_or_long (lit "dec") (lit "ember")

abbrev pub digit : Pattern
digit = one is_digit

-- `\d{1,2}(?:st|nd|rd|th)?`
unfoldable pub day_number : Pattern
day_number =
    digit
    then_ optionally digit
    then_ optionally (
        small_literal (lit "st")
        or_ small_literal (lit "nd")
        or_ small_literal (lit "rd")
        or_ small_literal (lit "th"))

abbrev pub comma : Pattern
comma = one (λ c. c == b',')

abbrev pub hyphen : Pattern
hyphen = one (λ c. c == b'-')

abbrev pub year : Pattern
year = digit then_ digit then_ digit then_ digit

unfoldable pub month_name_date : Search
unfolding month_name day_number
month_name_date = at_word_start (
    ((month_name
        then_ some_of is_space
        then_ day_number
        then_ optionally comma
        then_ some_of is_space
        then_ year)
      or_ (day_number
          then_ some_of is_space
          then_ month_name
          then_ optionally comma
          then_ some_of is_space
          then_ year)
      or_ (year then_ hyphen then_ digit then_ digit then_ hyphen then_ digit then_ digit))
    then_ word_end)

-- The keywords of each level, by the order of their names.
unfoldable pub level_keywords : List (Text × List Text)
level_keywords =
    (lit "bachelors", lit "bachelor's" ∷ lit "bachelors" ∷ lit "undergraduate" ∷ lit "bsc" ∷ [])
    ∷ (lit "doctorate", lit "phd" ∷ lit "doctoral" ∷ lit "doctorate" ∷ [])
    ∷ (lit "masters", lit "master's" ∷ lit "masters" ∷ lit "msc" ∷ lit "ma " ∷ lit "mba" ∷ [])
    ∷ []

unfoldable pub eligibility_phrases : List Text
eligibility_phrases =
    lit "all countries"
    ∷ lit "all nationalities"
    ∷ lit "international students"
    ∷ lit "citizens of"
    ∷ lit "residents of"
    ∷ lit "open to"
    ∷ []

unfoldable pub levels_in : Text → List (Text × List Text) → List Text
levels_in lowered [] = []
levels_in lowered ((level, keywords) ∷ rest) =
    let others = levels_in lowered rest in
    if any (λ keyword. occurs_in keyword lowered) keywords then level ∷ others else others

-- `" ".join(part for part in (raw_title, raw_excerpt) if part)`
unfoldable pub text_between : Text → Option Text → Text
text_between title excerpt =
    let rest = get_or excerpt [] in
    if is_empty title then rest else (if is_empty rest then title else title ++ 32 ∷ rest)

unfoldable pub extract_candidate_facts : Text → Option Text → Facts
unfolding text_between levels_in level_keywords eligibility_phrases
extract_candidate_facts title excerpt =
    let text = text_between title excerpt in
    let lowered = lower text in
    record {
      funding_mentions = findall currency_amount text;
      deadline_mentions = findall month_name_date text;
      level_mentions = levels_in lowered level_keywords;
      eligibility_phrase = find_first (λ phrase. occurs_in phrase lowered) eligibility_phrases;
    }
