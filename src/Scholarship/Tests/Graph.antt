-- ===== src/Scholarship/Tests/Graph.antt =====
-- A whole run at concrete inputs: the source page is too short to be a page.
use edufurther_agent_be.Base.{
  ◌≡◌, refl, ◌⊎◌, true, false, none, some, List, [], ◌∷◌, Text, lit, All, arith, length, text_eq,
  strip, lower, split_on, starts_with, ends_with, join, contains_text, drop_while, rstrip_by,
  show_nat,
}
use edufurther_agent_be.Errors.{Result, ok, raise}
use edufurther_agent_be.Json.{str, arr, obj, nil, cons, end, field, get_field}
use edufurther_agent_be.Python.Urls.{
  UrlLib, urlsplit, urlunsplit, port, hostname, urlencode, parse_qsl,
}
use edufurther_agent_be.Tools.Urls.{canonicalize_url}
use edufurther_agent_be.Tools.DirectFetch.{
  Network, Response, v4, validate_source_url, fetch_source, read_bounded, is_approved, host_of,
  is_public_host, restore_trailing_slash,
}
use edufurther_agent_be.Tools.JinaClient.{HttpResponse}
use edufurther_agent_be.Tools.Retrieval.{Jina, fetch_page, direct, try_jina}
use edufurther_agent_be.Integrations.Product.{client_from_settings, get_discovery, post_call}
use edufurther_agent_be.Scholarship.Schemas.{more_evidence_required}
use edufurther_agent_be.Scholarship.Normalization.{Unicode}
use edufurther_agent_be.Scholarship.Workflow.{State, receive_page, route_after_fetch, decide}
use edufurther_agent_be.Scholarship.Loading.{load_discovery}
use edufurther_agent_be.Scholarship.Submission.{
  submit_to_product, submit_all, submit_candidates, submit_run, submit_each, record_job_run,
  submitted,
}
use edufurther_agent_be.Scholarship.Submission.Shadow.{IsUnseen}
use edufurther_agent_be.Scholarship.Graph.{
  Services, World, Stage, loading, fetching, classifying, splitting, single, run, perform, go_on,
  next, received, fetch_source_node, with_calls, stage_of,
}
use edufurther_agent_be.Scholarship.Graph.Paths.{run_ends}
use edufurther_agent_be.Scholarship.Graph.Routes.{
  visited, last_stages, candidate_stages, run_routes,
}
use edufurther_agent_be.Scholarship.Graph.Runs.{run-IsUnseen}
use edufurther_agent_be.Scholarship.Graph.Unreadable.{run_unreadable}
use edufurther_agent_be.Scholarship.Tests.Decisions.{state}
use edufurther_agent_be.Scholarship.Tests.Submission.{shadow_settings, product, http, timeout, repr}

-- "http://a.org/b"
abbrev page_url : Text
page_url =
    b'h' ∷ b't' ∷ b't' ∷ b'p' ∷ b':' ∷ b'/' ∷ b'/' ∷ b'a' ∷ b'.' ∷ b'o' ∷ b'r' ∷ b'g' ∷ b'/' ∷ b'b'
    ∷ []

abbrev domain : Text
domain = b'a' ∷ b'.' ∷ b'o' ∷ b'r' ∷ b'g' ∷ []

abbrev lib : UrlLib
lib = record { valid_netloc = λ netloc. true; unquote = λ s. s; quote_plus = λ s. s }

abbrev page : Response
page = record { status_code = 200; location = none; content_type = []; chunks = (1 ∷ []) ∷ [] }

abbrev network : Network
network = record {
  urls = lib;
  urljoin = λ base location. location;
  getaddrinfo = λ host. some (v4 134744072 ∷ []);
  is_multicast = λ ip. false;
  is_unspecified = λ ip. false;
  is_global = λ ip. true;
  get = λ url. ok page;
}

abbrev api : Jina
api = record {
  fetch_via_jina = λ url. ok [];
  search_via_jina = λ query limit. ok [];
  decode = λ content. content;
  utf8_length = λ text. length text;
}

abbrev pub unicode : Unicode
unicode = record { nfkd = λ s. s; is_combining = λ c. false; casefold = λ s. s; to_lower = λ s. s }

-- The product's record of the discovery.
abbrev discovery_answer : HttpResponse
discovery_answer = record {
  status_code = 200;
  text = [];
  json = some (
      obj (
        field (lit "source_url") (str page_url) (
          field (lit "discovery_id") (str (b'd' ∷ []))
            (field (lit "approved_domains") (arr (cons (str domain) nil)) end))));
}

abbrev env : Services
env = record {
  settings = shadow_settings;
  product = product;
  http = record http { get = λ url token params. ok discovery_answer };
  router = raise timeout;
  api = api;
  net = network;
  lib = lib;
  unicode = unicode;
  period = [];
  now = [];
  repr = repr;
}

abbrev world : World
world = record { texts = []; usage = []; calls = [] }

ended : (s : State) × (w : World) × (run env 12 loading state world ≡ some (ok s, w))
unfolding run go_on perform next load_discovery client_from_settings get_discovery get_field lit
    text_eq fetch_source_node received fetch_page direct validate_source_url canonicalize_url
    urlsplit lower drop_while strip starts_with port is_approved host_of hostname urlunsplit
    is_public_host restore_trailing_slash ends_with urlencode contains_text join rstrip_by show_nat
    split_on parse_qsl edufurther_agent_be.Tools.Registry.require_enabled fetch_source read_bounded
    receive_page route_after_fetch stage_of decide with_calls submit_to_product submit_all
    submit_candidates submit_run submit_each record_job_run submitted post_call
    edufurther_agent_be.Tools.Retrieval.prefer edufurther_agent_be.Scholarship.Submission.submit_one
ended = (_, _, refl)

unread : ended.0.page_usable ≡ some false
unfolding ended
unread = refl

run_ends_example : (e : Result State × World) × (run env 12 loading state world ≡ some e)
run_ends_example = run_ends env 12 loading state world (omega arith)

run_routes_example :
    (path : List Stage) × (visited env 12 loading state world ≡ loading ∷ fetching ∷ path)
    × ((path ≡ last_stages)
        ⊎ (path ≡ classifying ∷ last_stages)
        ⊎ (path ≡ classifying ∷ splitting ∷ candidate_stages)
        ⊎ (path ≡ classifying ∷ single ∷ candidate_stages))
run_routes_example = run_routes env 12 state ended.0 world ended.1 ended.2

run-IsUnseen_example : All IsUnseen ended.1.calls
run-IsUnseen_example = run-IsUnseen env 12 loading state world (ok ended.0, ended.1) refl tt ended.2

run_unreadable_example : ended.0.outcome ≡ some more_evidence_required
run_unreadable_example = run_unreadable env 12 state ended.0 world ended.1 ended.2 unread
