-- ===== src/Scholarship/Normalization.antt =====
-- src/app/usecases/scholarship_finder/normalization.py: the folding of letters and the identity key.
-- `unicodedata` and the case mappings of Python's `str` are what `Unicode` holds.
use edufurther_agent_be.Base.{
  ℕ, Bool, true, false, not, ◌&&◌, ◌||◌, List, [], ◌∷◌, ◌++◌, Text, lit, text_eq, is_empty, keep,
  join, strip, is_space, get_or, Option, leb, ltb, ◌==◌, if◌then◌else◌,
}

pub record Unicode : Type 0 where
  pub nfkd : Text → Text
  pub is_combining : ℕ → Bool
  pub to_lower : Text → Text
  pub casefold : Text → Text

-- `_INVISIBLE`
unfoldable pub is_invisible : ℕ → Bool
is_invisible c = (c == 0xAD) || ((leb 0x200B c && leb c 0x200D) || (c == 0xFEFF))

-- `_INDIVISIBLE`
unfoldable pub indivisible : ℕ → Text
indivisible c =
    if c == 322
    then lit "l"
    else if c == 321
    then lit "L"
    else if c == 248
    then lit "o"
    else if c == 216
    then lit "O"
    else if (c == 273) || (c == 240)
    then lit "d"
    else if (c == 272) || (c == 208)
    then lit "D"
    else if c == 230
    then lit "ae"
    else if c == 198
    then lit "AE"
    else if c == 339
    then lit "oe"
    else if c == 338
    then lit "OE"
    else if c == 254
    then lit "th"
    else if c == 222
    then lit "TH"
    else if c == 223
    then lit "ss"
    else c ∷ []

unfoldable pub translate : Text → Text
unfolding is_invisible indivisible
translate [] = []
translate (c ∷ cs) = (if is_invisible c then [] else indivisible c) ++ translate cs

unfoldable pub fold : Unicode → Text → Text
unfolding translate
fold unicode value = keep (λ c. not (unicode.is_combining c)) (unicode.nfkd (translate value))

abbrev is_word_char : ℕ → Bool
is_word_char c = (leb b'a' c && leb c b'z') || (leb b'0' c && leb c b'9')

-- `re.findall(r"[a-z0-9]+", s)`; `word` holds what was read of a word.
unfoldable pub words_from : Text → Text → List Text
words_from word [] = if is_empty word then [] else word ∷ []
words_from word (c ∷ cs) =
    let rest = words_from (if is_word_char c then word ++ c ∷ [] else []) cs in
    if is_word_char c || is_empty word then rest else word ∷ rest

unfoldable pub words_of : Text → List Text
unfolding words_from
words_of s = words_from [] s

-- `re.sub(r"\s+", " ", s)`; `spaced` tells whether a space was written just before.
unfoldable pub collapse_from : Bool → Text → Text
collapse_from spaced [] = []
collapse_from spaced (c ∷ cs) =
    let rest = collapse_from (is_space c) cs in
    if is_space c then (if spaced then rest else 32 ∷ rest) else c ∷ rest

-- The order of texts, by code points.
unfoldable pub text_lt : Text → Text → Bool
text_lt [] [] = false
text_lt [] (y ∷ ys) = true
text_lt (x ∷ xs) [] = false
text_lt (x ∷ xs) (y ∷ ys) = ltb x y || ((x == y) && text_lt xs ys)

-- `sorted(set(words))`
unfoldable pub insert_word : Text → List Text → List Text
unfolding text_lt
insert_word w [] = w ∷ []
insert_word w (v ∷ vs) =
    let rest = insert_word w vs in
    if text_eq w v then v ∷ vs else (if text_lt w v then w ∷ v ∷ vs else v ∷ rest)

unfoldable pub sorted_set : List Text → List Text
unfolding insert_word
sorted_set [] = []
sorted_set (w ∷ ws) = insert_word w (sorted_set ws)

pub record NormalizedDiscovery : Type 0 where
  pub title : Text
  pub identity_key : Text
  pub tokens : List Text

unfoldable pub normalize_discovery : Unicode → Text → Option Text → NormalizedDiscovery
unfolding collapse_from sorted_set words_of
normalize_discovery unicode title provider =
    let clean_title = unicode.casefold (collapse_from false (strip (fold unicode title))) in
    let clean_provider =
      unicode.casefold (collapse_from false (strip (fold unicode (get_or provider [])))) in
    let tokens = sorted_set (words_of (clean_provider ++ lit " " ++ clean_title)) in
    record { title = clean_title; identity_key = join (lit "|") tokens; tokens = tokens }
