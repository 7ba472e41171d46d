-- ===== src/Tools/Retrieval.antt =====
-- src/app/tools/retrieval.py and src/app/tools/search.py: which fetcher is tried, in which order, and
-- the searches. The reader and the search behind Jina's API are the functions of `Jina`; a caller's
-- session commits the budget that it reserves.
pub mod Refusal
pub mod Pages
use edufurther_agent_be.Base.{
  ℕ, ◌+◌, Bool, true, false, not, ◌&&◌, ◌||◌, Option, none, some, List, [], ◌∷◌, Text, lit, strip,
  is_empty, length, take, leb, ltb, ◌==◌, if◌then◌else◌,
}
use edufurther_agent_be.Errors.{
  PyError, ErrorKind, value_error, tool_disabled, tool_policy_refusal, http_error, Result, ok,
  raise,
}
use edufurther_agent_be.Settings.{Settings}
use edufurther_agent_be.Tools.Budget.{Usage, reserve_call}
use edufurther_agent_be.Tools.Registry.{ToolSpec, require_enabled, direct_fetch, jina, jina_search}
use edufurther_agent_be.Tools.DirectFetch.{
  Network, FetchedSource, validate_source_url, fetch_source,
}

abbrev pub min_usable_body_chars : ℕ
min_usable_body_chars = 1500

pub data FetchMethod : Type 0 where
  direct_method jina_method : FetchMethod

pub record RetrievedPage : Type 0 where
  pub url : Text
  pub text : Text
  pub fetch_method : FetchMethod
  pub status_code : ℕ
  pub content_type : Text
  pub byte_length : ℕ

pub record SearchResult : Type 0 where
  pub title : Text
  pub url : Text

-- The reader and the search that src/app/tools/jina.py gives, the body decoder and the length of a text in UTF-8.
pub record Jina : Type 0 where
  pub fetch_via_jina : Text → Result Text
  pub search_via_jina : Text → ℕ → Result (List SearchResult)
  pub decode : List ℕ → Text
  pub utf8_length : Text → ℕ

unfoldable pub jina_provider : Text
jina_provider = lit "jina"

-- `len(page.text.strip())`
abbrev pub body_chars : RetrievedPage → ℕ
body_chars page = length (strip page.text)

abbrev pub is_http_error : ErrorKind → Bool
is_http_error http_error = true
is_http_error _ = false

abbrev pub is_value_error : ErrorKind → Bool
is_value_error value_error = true
is_value_error _ = false

abbrev is_disabled : ErrorKind → Bool
is_disabled tool_disabled = true
is_disabled _ = false

-- The truth of an optional key.
abbrev pub configured : Option Text → Bool
configured none = false
configured (some key) = not (is_empty key)

module _ (settings : Settings) (api : Jina) (net : Network) (period : Text) where
  -- The call of the reader: a transport failure is no page.
  unfoldable pub read_via_jina : Text → Result (Option RetrievedPage)
  read_via_jina url = elim (api.fetch_via_jina url) [
    | raise exc ↦ if is_http_error exc.kind then ok none else raise exc
    | ok text ↦ ok (
        some (record {
          url = url;
          text = text;
          fetch_method = jina_method;
          status_code = 200;
          content_type = lit "text/markdown";
          byte_length = api.utf8_length text;
        }))
  ]

  -- `_try_jina`, with the budget that it leaves.
  unfoldable pub try_jina : Text → Usage → Result (Option RetrievedPage) × Usage
  unfolding read_via_jina
  try_jina url usage =
      if not (configured settings.jina_api_key)
      then (ok none, usage)
      else elim (require_enabled settings jina) [
        | raise exc ↦ (ok none, usage)
        | ok spec ↦
            let (granted, usage') =
              reserve_call jina_provider settings.jina_monthly_call_limit period usage in
            if granted then (read_via_jina url, usage') else (ok none, usage')
      ]

  abbrev page_of : FetchedSource → RetrievedPage
  page_of fetched = record {
    url = fetched.url;
    text = api.decode fetched.content;
    fetch_method = direct_method;
    status_code = fetched.status_code;
    content_type = fetched.content_type;
    byte_length = length fetched.content;
  }

  -- `_direct`
  unfoldable pub direct : List Text → Bool → Text → Result RetrievedPage
  direct approved any_domain url = elim (require_enabled settings direct_fetch) [
    | raise exc ↦ raise exc
    | ok spec ↦ elim (fetch_source net approved any_domain settings.fetch_max_bytes url).0 [
      | raise exc ↦ raise exc
      | ok fetched ↦ ok (page_of fetched)
    ]
  ]

  -- The fallback where the direct fetch raised `exc`.
  unfoldable pub fall_back : PyError → Text → Usage → Result RetrievedPage × Usage
  unfolding try_jina
  fall_back exc url usage =
      let (tried, usage') = try_jina url usage in
      elim tried [
        | raise e ↦ (raise e, usage')
        | ok none ↦ (raise exc, usage')
        | ok (some page) ↦ (ok page, usage')
      ]

  -- The reader's page where it is accepted, and the direct page otherwise.
  unfoldable pub prefer :
      (RetrievedPage → Bool) → RetrievedPage → Text → Usage → Result RetrievedPage × Usage
  unfolding try_jina
  prefer better page url usage =
      let (tried, usage') = try_jina url usage in
      elim tried [
        | raise e ↦ (raise e, usage')
        | ok none ↦ (ok page, usage')
        | ok (some fallback) ↦ (ok (if better fallback then fallback else page), usage')
      ]

  -- What `fetch_page` does once it has the result of the direct fetch.
  unfoldable pub after_direct : Text → Result RetrievedPage → Usage → Result RetrievedPage × Usage
  unfolding fall_back
  after_direct url (raise exc) usage =
      if is_value_error exc.kind
      then (raise exc, usage)
      else if is_http_error exc.kind || is_disabled exc.kind
      then fall_back exc url usage
      else (raise exc, usage)
  after_direct url (ok page) usage =
      if not (page.status_code == 200)
      then prefer (λ fallback. true) page url usage
      else if ltb (body_chars page) min_usable_body_chars
      then prefer (λ fallback. ltb (body_chars page) (body_chars fallback)) page url usage
      else (ok page, usage)

  unfoldable pub fetch_page : List Text → Text → Usage → Result RetrievedPage × Usage
  unfolding after_direct direct
  fetch_page approved url usage = elim (validate_source_url net approved false url) [
    | raise exc ↦ (raise exc, usage)
    | ok validated ↦ after_direct validated (direct approved false validated) usage
  ]

  unfoldable pub status_error : PyError
  status_error = record {
    kind = http_error;
    type_name = lit "HTTPError";
    status_code = none;
    message = lit "page fetch returned an error status";
  }

  -- The direct fetch of an official page, which has to be no error.
  unfoldable pub direct_official : List Text → Bool → Text → Result RetrievedPage
  unfolding direct status_error
  direct_official approved any_domain url = elim (direct approved any_domain url) [
    | raise exc ↦ raise exc
    | ok page ↦ if leb 400 page.status_code then raise status_error else ok page
  ]

  unfoldable pub fetch_official_page :
      List Text → Bool → Text → Usage → Result RetrievedPage × Usage
  unfolding direct_official try_jina
  fetch_official_page approved any_domain url usage =
      elim (validate_source_url net approved any_domain url) [
        | raise exc ↦ (raise exc, usage)
        | ok validated ↦
            let (tried, usage') = try_jina validated usage in
            elim tried [
              | raise exc ↦ (raise exc, usage')
              | ok none ↦ (direct_official approved any_domain validated, usage')
              | ok (some page) ↦
                  if ltb (body_chars page) min_usable_body_chars
                  then (direct_official approved any_domain validated, usage')
                  else (ok page, usage')
            ]
      ]

  -- `search_web` of src/app/tools/search.py: whatever goes wrong is no result.
  unfoldable pub run_search : Text → Result (List SearchResult)
  run_search query = elim (api.search_via_jina query settings.search_result_limit) [
    | raise exc ↦ if is_http_error exc.kind || is_value_error exc.kind then ok [] else raise exc
    | ok results ↦ ok results
  ]

  unfoldable pub search_web : Text → Usage → Result (List SearchResult) × Usage
  unfolding run_search
  search_web query usage =
      if not (configured settings.jina_api_key)
      then (ok [], usage)
      else elim (require_enabled settings jina_search) [
        | raise exc ↦ (ok [], usage)
        | ok spec ↦
            let (granted, usage') =
              reserve_call jina_provider settings.jina_monthly_call_limit period usage in
            if granted then (run_search query, usage') else (ok [], usage')
      ]
