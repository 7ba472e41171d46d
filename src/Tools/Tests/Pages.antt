-- ===== src/Tools/Tests/Pages.antt =====
-- The retrievals of the test data.
use edufurther_agent_be.Base.{
  ℕ, ◌≡◌, refl, true, false, none, [], ◌∷◌, lit, text_eq, strip, lower, split_on, starts_with,
  ends_with, join, contains_text, length, drop_while, rstrip_by, show_nat,
}
use edufurther_agent_be.Errors.{PyError, ok, raise}
use edufurther_agent_be.Settings.{Settings}
use edufurther_agent_be.Python.Urls.{urlsplit, urlunsplit, port, hostname, urlencode, parse_qsl}
use edufurther_agent_be.Tools.Urls.{canonicalize_url}
use edufurther_agent_be.Tools.DirectFetch.{
  validate_source_url, fetch_source, read_bounded, refusal, is_approved, host_of, is_public_host,
  restore_trailing_slash,
}
use edufurther_agent_be.Tools.Retrieval.{
  Jina, RetrievedPage, direct_method, direct, fetch_official_page,
}
use edufurther_agent_be.Tools.Tests.{p, page_url, domain, page, network}

-- The reader has no key, and a body may have two bytes.
abbrev limited : ℕ → Settings
limited max_bytes = record {
  workflow_version = [];
  shadow_mode = true;
  job_lease_seconds = 300;
  job_max_attempts = 5;
  job_sweep_batch_limit = 20;
  disabled_tools = [];
  jina_api_key = none;
  jina_monthly_call_limit = 0;
  jina_timeout_seconds = 30;
  search_result_limit = 5;
  fetch_timeout_seconds = 20;
  fetch_max_bytes = max_bytes;
  tavily_timeout_seconds = 20;
  parsebot_timeout_seconds = 20;
}

abbrev api : Jina
api = record {
  fetch_via_jina = λ url. ok [];
  search_via_jina = λ query limit. ok [];
  decode = λ content. content;
  utf8_length = λ text. length text;
}

abbrev retrieved : RetrievedPage
retrieved = record {
  url = page_url;
  text = 1 ∷ 2 ∷ 3 ∷ [];
  fetch_method = direct_method;
  status_code = 200;
  content_type = [];
  byte_length = 3;
}

fetched :
    fetch_official_page (limited 9) api (network page) p (domain ∷ []) false page_url []
    ≡ (ok retrieved, [])
unfolding fetch_official_page direct validate_source_url canonicalize_url urlsplit text_eq lower
    drop_while strip lit starts_with port is_approved host_of hostname urlunsplit is_public_host
    restore_trailing_slash ends_with urlencode contains_text join rstrip_by show_nat split_on
    parse_qsl edufurther_agent_be.Tools.Registry.require_enabled fetch_source read_bounded
fetched = refl

abbrev oversized : PyError
oversized = refusal (lit "Source response exceeds maximum size")

too_large : direct (limited 2) api (network page) p (domain ∷ []) false page_url ≡ raise oversized
unfolding direct validate_source_url canonicalize_url urlsplit text_eq lower drop_while strip lit
    starts_with port is_approved host_of hostname urlunsplit is_public_host restore_trailing_slash
    ends_with urlencode contains_text join rstrip_by show_nat split_on parse_qsl
    edufurther_agent_be.Tools.Registry.require_enabled fetch_source read_bounded
too_large = refl
