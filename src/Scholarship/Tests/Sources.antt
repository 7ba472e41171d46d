-- ===== src/Scholarship/Tests/Sources.antt =====
-- The choice of official pages at concrete inputs.
use edufurther_agent_be.Base.{
  ◌≡◌, refl, ◌⊎◌, inl, Bool, true, false, none, some, [], ◌∷◌, Text, text_eq, lit, strip, lower,
  split_on, starts_with, join, contains_text, is_empty, drop_while, length,
}
use edufurther_agent_be.Errors.{ok, raise}
use edufurther_agent_be.Settings.{Settings}
use edufurther_agent_be.Python.Urls.{UrlLib, SplitUrl, urlsplit, hostname}
use edufurther_agent_be.Tools.Retrieval.{Jina, SearchResult}
use edufurther_agent_be.Tools.DirectFetch.{Network}
use edufurther_agent_be.Scholarship.Schemas.{Candidate}
use edufurther_agent_be.Scholarship.Normalization.{Unicode, fold, words_of}
use edufurther_agent_be.Scholarship.OfficialSource.{
  pick_official, names_match, split_error, distinctive_words, generic_title_words,
  non_distinctive_labels, host_labels,
}
use edufurther_agent_be.Scholarship.OfficialSource.Choice.{
  Picked, pick_official_lem, pick_official_malformed,
}
use edufurther_agent_be.Scholarship.Sources.{Discovery, find_official, registrable}
use edufurther_agent_be.Scholarship.Sources.Grounds.{ByLink, BySearch, find_official_grounds}
use edufurther_agent_be.Scholarship.Tests.{candidate}

abbrev lib : Bool → UrlLib
lib valid = record { valid_netloc = λ netloc. valid; unquote = λ s. s; quote_plus = λ s. s }

abbrev ascii : Unicode
ascii = record { nfkd = λ s. s; is_combining = λ c. false; to_lower = lower; casefold = lower }

-- "zeta" and "http://zeta.org/"
abbrev zeta : Text
zeta = b'z' ∷ b'e' ∷ b't' ∷ b'a' ∷ []

abbrev zeta_url : Text
zeta_url =
    b'h' ∷ b't' ∷ b't' ∷ b'p' ∷ b':' ∷ b'/' ∷ b'/' ∷ b'z' ∷ b'e' ∷ b't' ∷ b'a' ∷ b'.' ∷ b'o' ∷ b'r'
    ∷ b'g' ∷ b'/' ∷ []

-- "http://a.org/b"
abbrev source_url : Text
source_url =
    b'h' ∷ b't' ∷ b't' ∷ b'p' ∷ b':' ∷ b'/' ∷ b'/' ∷ b'a' ∷ b'.' ∷ b'o' ∷ b'r' ∷ b'g' ∷ b'/' ∷ b'b'
    ∷ []

abbrev found_page : SearchResult
found_page = record { title = []; url = zeta_url }

chosen : pick_official (lib true) ascii zeta (found_page ∷ []) [] [] ≡ ok (some found_page)
unfolding pick_official distinctive_words words_of lower fold contains_text generic_title_words
    text_eq lit urlsplit drop_while hostname starts_with host_labels split_on strip
    non_distinctive_labels names_match
chosen = refl

pick_official_lem_example : Picked (lib true) ascii zeta (found_page ∷ []) [] [] found_page
pick_official_lem_example =
    pick_official_lem (lib true) ascii zeta (found_page ∷ []) [] [] found_page chosen

distinctive : is_empty (distinctive_words ascii zeta) ≡ false
unfolding distinctive_words words_of lower fold contains_text generic_title_words text_eq lit
distinctive = refl

malformed : urlsplit (lib false) zeta_url ≡ none
unfolding urlsplit
malformed = refl

pick_official_malformed_example :
    pick_official (lib false) ascii zeta (found_page ∷ []) [] [] ≡ raise split_error
pick_official_malformed_example =
    pick_official_malformed (lib false) ascii zeta (found_page ∷ []) [] [] found_page (inl refl)
      malformed distinctive

abbrev settings : Settings
settings = record {
  workflow_version = [];
  shadow_mode = true;
  job_lease_seconds = 300;
  job_max_attempts = 5;
  job_sweep_batch_limit = 20;
  disabled_tools = [];
  jina_api_key = none;
  jina_monthly_call_limit = 0;
  jina_timeout_seconds = 30;
  search_result_limit = 5;
  fetch_timeout_seconds = 20;
  fetch_max_bytes = 1000;
  tavily_timeout_seconds = 20;
  parsebot_timeout_seconds = 20;
}

abbrev api : Jina
api = record {
  fetch_via_jina = λ url. ok [];
  search_via_jina = λ query limit. ok [];
  decode = λ content. content;
  utf8_length = λ text. length text;
}

abbrev network : Network
network = record {
  urls = lib true;
  urljoin = λ base location. location;
  getaddrinfo = λ host. none;
  is_multicast = λ ip. false;
  is_unspecified = λ ip. false;
  is_global = λ ip. true;
  get = λ url. raise split_error;
}

abbrev discovery : Discovery
discovery = record {
  discovery_id = b'd' ∷ [];
  raw_title = none;
  raw_excerpt = none;
  source_url = source_url;
  authority_grade = b'D' ∷ [];
  provider_name = none;
}

abbrev source : SplitUrl
source = record {
  scheme = b'h' ∷ b't' ∷ b't' ∷ b'p' ∷ [];
  netloc = b'a' ∷ b'.' ∷ b'o' ∷ b'r' ∷ b'g' ∷ [];
  path = b'/' ∷ b'b' ∷ [];
  query = [];
  fragment = [];
}

abbrev linked : Candidate
linked = record candidate { url = some zeta_url; official_url = none }

abbrev settled : Candidate
settled = record linked { official_url = some zeta_url }

link_taken :
    find_official (lib true) ascii settings api network [] discovery source linked []
    ≡ (ok settled, [])
unfolding find_official urlsplit registrable split_on lower hostname starts_with lit drop_while join
    text_eq strip
link_taken = refl

find_official_grounds_example :
    ByLink (lib true) ascii settings api network [] discovery source (some zeta_url) zeta_url
    ⊎ BySearch (lib true) ascii settings api network [] discovery source linked.title [] zeta_url
find_official_grounds_example =
    find_official_grounds (lib true) ascii settings api network [] discovery source linked settled
      zeta_url [] [] link_taken refl refl
