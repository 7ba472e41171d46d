-- ===== src/Tools/Tests.antt =====
-- The theorems of the tools at concrete inputs.
mod Pages
mod Pace
use edufurther_agent_be.Base.{
  ℕ, ◌+◌, ◌-◌, ◌≤◌, ◌<◌, min, ◌≡◌, refl, ◌⊎◌, inl, inr, Bool, true, false, Option, none, some, List,
  [], ◌∷◌, Text, lit, text_eq, strip, lower, split_on, starts_with, ends_with, join, contains_text,
  length, arith, ltb, drop_while, rstrip_by, show_nat,
}
use edufurther_agent_be.Errors.{PyError, http_error, Result, ok, raise}
use edufurther_agent_be.Settings.{Settings}
use edufurther_agent_be.Python.Urls.{
  UrlLib, urlsplit, urlunsplit, port, hostname, urlencode, parse_qsl,
}
use edufurther_agent_be.Tools.Urls.{canonicalize_url}
use edufurther_agent_be.Tools.Budget.{Usage, calls_used, reserve_call}
use edufurther_agent_be.Tools.Budget.Limit.{spend, count_calls, spend_limit}
use edufurther_agent_be.Tools.Records.{
  ToolCallRecord, AgentToolCall, ok_status, recorded, recorded_transparent,
}
use edufurther_agent_be.Tools.DirectFetch.{
  Network, Response, IpAddress, v4, validate_source_url, fetch_source, read_bounded, refusal,
  is_approved, host_of, is_public_host, restore_trailing_slash,
}
use edufurther_agent_be.Tools.DirectFetch.Guard.{
  Vetted, Sends, validate_source_url-Vetted, fetch_source-Sends,
}
use edufurther_agent_be.Tools.DirectFetch.Body.{joined, read_bounded_lem}
use edufurther_agent_be.Tools.Retrieval.{
  Jina, RetrievedPage, direct_method, jina_method, direct, try_jina, fetch_page,
  fetch_official_page, jina_provider, body_chars, min_usable_body_chars,
}
use edufurther_agent_be.Tools.Retrieval.Refusal.{refused_on_the_way, try_jina_budget}
use edufurther_agent_be.Tools.Retrieval.Pages.{fetch_official_page_usable}

abbrev pub lib : UrlLib
lib = record { valid_netloc = λ netloc. true; unquote = λ s. s; quote_plus = λ s. s }

abbrev pub p : Text
p = b'p' ∷ []

abbrev q : Text
q = b'q' ∷ []

abbrev calls : List (Text × Text)
calls = (p, p) ∷ (q, p) ∷ (p, p) ∷ (p, p) ∷ []

spend_limit_example :
    let used = calls_used p p [] in
    let (n, final) = spend p p (λ provider. 2) calls [] in
    (n ≡ min (count_calls p p calls) (2 - used)) × (calls_used p p final ≡ used + n)
spend_limit_example = spend_limit p p (λ provider. 2) calls []

-- "http://a.org/b"
abbrev pub page_url : Text
page_url =
    b'h' ∷ b't' ∷ b't' ∷ b'p' ∷ b':' ∷ b'/' ∷ b'/' ∷ b'a' ∷ b'.' ∷ b'o' ∷ b'r' ∷ b'g' ∷ b'/' ∷ b'b'
    ∷ []

abbrev pub domain : Text
domain = b'a' ∷ b'.' ∷ b'o' ∷ b'r' ∷ b'g' ∷ []

-- Every page redirects to an address that is refused.
abbrev redirect : Response
redirect = record { status_code = 302; location = some p; content_type = []; chunks = [] }

abbrev pub page : Response
page = record {
  status_code = 200;
  location = none;
  content_type = [];
  chunks = (1 ∷ 2 ∷ []) ∷ (3 ∷ []) ∷ [];
}

abbrev pub network : Response → Network
network response = record {
  urls = lib;
  urljoin = λ base location. location;
  getaddrinfo = λ host. some (v4 134744072 ∷ []);
  is_multicast = λ ip. false;
  is_unspecified = λ ip. false;
  is_global = λ ip. true;
  get = λ url. ok response;
}

accepted : validate_source_url (network page) (domain ∷ []) false page_url ≡ ok page_url
unfolding validate_source_url canonicalize_url urlsplit text_eq lower drop_while strip lit
    starts_with port is_approved host_of hostname urlunsplit is_public_host restore_trailing_slash
    ends_with urlencode contains_text join rstrip_by show_nat split_on parse_qsl
accepted = refl

fetch_source-Sends_example :
    Sends
      (network redirect)
      (domain ∷ [])
      false
      2
      (fetch_source (network redirect) (domain ∷ []) false 1000 page_url).1
fetch_source-Sends_example = fetch_source-Sends (network redirect) (domain ∷ []) false 1000 page_url
