-- ===== src/Scholarship/OfficialSource.antt =====
-- src/app/usecases/scholarship_finder/official_source.py: the choice of an official page among search
-- results. A Python set is the list of its members; nothing here depends on their order.
mod Vocabulary
pub mod Choice
unfoldable pub use Vocabulary.{
  non_distinctive_labels, generic_title_words, public_body_labels, public_body_tlds,
}
use edufurther_agent_be.Base.{
  ℕ, zero, suc, ◌+◌, Bool, true, false, not, ◌&&◌, ◌||◌, Option, none, some, List, [], ◌∷◌, ◌++◌,
  map, Text, lit, text_eq, contains_text, starts_with, ends_with, occurs_in, lower, strip, split_on,
  join, is_empty, keep, any, all, length, take, find_first, leb, ltb, ◌==◌, if◌then◌else◌,
}
use edufurther_agent_be.Errors.{PyError, value_error, Result, ok, raise}
use edufurther_agent_be.Python.Urls.{UrlLib, SplitUrl, urlsplit, hostname}
use edufurther_agent_be.Tools.Urls.{is_http}
use edufurther_agent_be.Tools.Retrieval.{SearchResult}
use edufurther_agent_be.Scholarship.Normalization.{Unicode, fold, words_of}

abbrev pub min_match_chars : ℕ
min_match_chars = 4

-- The parts of a host between its dots.
unfoldable pub host_parts : Text → List Text
host_parts host = keep (λ part. not (is_empty part)) (split_on b'.' (strip (lower host)))

-- `parts[:-1]`
unfoldable pub all_but_last : List Text → List Text
all_but_last [] = []
all_but_last (x ∷ []) = []
all_but_last (x ∷ y ∷ xs) = x ∷ all_but_last (y ∷ xs)

abbrev rest_of : List Text → List Text
rest_of [] = []
rest_of (x ∷ xs) = xs

-- `parts[-1] in tlds`
unfoldable pub last_in : List Text → List Text → Bool
last_in tlds [] = false
last_in tlds (x ∷ []) = contains_text x tlds
last_in tlds (x ∷ y ∷ xs) = last_in tlds (y ∷ xs)

unfoldable pub is_public_body : Text → Bool
unfolding host_parts last_in all_but_last
is_public_body host =
    let parts = host_parts host in
    if ltb (length parts) 2
    then false
    else if last_in public_body_tlds parts || ends_with (lit "europa.eu") (lower host)
    then true
    else any (λ part. contains_text part public_body_labels) (rest_of (all_but_last parts))

unfoldable pub host_labels : Text → List Text
unfolding host_parts all_but_last
host_labels host =
    let parts = host_parts host in
    if ltb (length parts) 2
    then []
    else keep (λ part. not (contains_text part non_distinctive_labels)) (all_but_last parts)

abbrev is_digit : ℕ → Bool
is_digit c = leb b'0' c && leb c b'9'

unfoldable pub is_distinctive : Text → Bool
is_distinctive word =
    leb min_match_chars (length word)
    && (not (contains_text word generic_title_words) && not (all is_digit word))

unfoldable pub distinctive_words : Unicode → Text → List Text
unfolding is_distinctive
distinctive_words unicode title =
    keep is_distinctive (words_of (unicode.to_lower (fold unicode title)))

unfoldable pub names_match : Text → Text → Bool
names_match word label =
    if ltb (length word) min_match_chars || ltb (length label) min_match_chars
    then text_eq word label && leb min_match_chars (length word)
    else starts_with label word || starts_with word label

abbrev provider_part : Text → Option Text → List Text
provider_part title none = []
provider_part title (some provider) =
    if is_empty provider || occurs_in (lower (strip provider)) (lower (strip title))
    then []
    else strip provider ∷ []

unfoldable pub search_query : Text → Option Text → Text
search_query title provider = join (lit " ") (
    keep (λ part. not (is_empty part))
      (strip title ∷ [] ++ provider_part title provider ++ lit "official site" ∷ []))

-- A result that may be chosen, with its host and the host's labels.
pub record Usable : Type 0 where
  pub result : SearchResult
  pub host : Text
  pub labels : List Text

-- The host of a URL that was split.
abbrev pub host_in : SplitUrl → Text
host_in parts = lower (hostname parts)

unfoldable pub usable_of : SearchResult → Text → Usable
usable_of result host = record { result = result; host = host; labels = host_labels host }

-- The conditions of the comprehension.
unfoldable pub may_be_chosen : List Text → List Text → SplitUrl → Usable → Bool
may_be_chosen source_host_labels excluded_hosts parts u =
    is_http parts.scheme
    && (not (is_empty u.host)
        && (not (contains_text u.host excluded_hosts)
            && (not (is_empty u.labels)
                && not (any (λ label. contains_text label source_host_labels) u.labels))))

unfoldable pub split_error : PyError
split_error = record {
  kind = value_error;
  type_name = lit "ValueError";
  status_code = none;
  message = lit "Invalid URL";
}

unfoldable pub usable_results :
    UrlLib → List Text → List Text → List SearchResult → Result (List Usable)
unfolding may_be_chosen usable_of split_error
usable_results lib source_host_labels excluded_hosts [] = ok []
usable_results lib source_host_labels excluded_hosts (result ∷ results) =
    let rest = usable_results lib source_host_labels excluded_hosts results in
    elim (urlsplit lib result.url) [
      | none ↦ raise split_error
      | some parts ↦
          let u = usable_of result (host_in parts) in
          elim rest [
            | raise exc ↦ raise exc
            | ok usable ↦ ok (
                if may_be_chosen source_host_labels excluded_hosts parts u
                then u ∷ usable
                else usable)
          ]
    ]

-- Whether a label of the host names the award.
unfoldable pub is_named : List Text → Usable → Bool
is_named words u = any (λ word. any (names_match word) u.labels) words

-- What follows the test of the names: `before` holds the better ranked results, the best one first.
unfoldable pub choose : List Text → List Usable → List Usable → Option SearchResult
unfolding is_named
choose words before [] = none
choose words before (u ∷ us) =
    let rest = choose words (before ++ u ∷ []) us in
    if is_named words u
    then elim (find_first (λ v. is_public_body v.host) before) [
      | some v ↦ some v.result
      | none ↦ some u.result
    ]
    else rest

unfoldable pub pick_official :
    UrlLib
    → Unicode
    → Text
    → List SearchResult
    → List Text
    → List Text
    → Result (Option SearchResult)
unfolding usable_results choose
pick_official lib unicode title results source_host_labels excluded_hosts =
    let words = distinctive_words unicode title in
    if is_empty words
    then ok none
    else elim (usable_results lib source_host_labels excluded_hosts results) [
      | raise exc ↦ raise exc
      | ok usable ↦ ok (choose words [] usable)
    ]
