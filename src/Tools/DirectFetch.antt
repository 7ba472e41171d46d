-- ===== src/Tools/DirectFetch.antt =====
-- src/app/tools/direct_fetch.py: the network guard and the fetch behind it. Name resolution, the
-- registries of `ipaddress`, HTTP transport and `urljoin` are what `Network` holds.
pub mod Guard
pub mod Body
use edufurther_agent_be.Base.{
  ℕ, ◌+◌, ◌*◌, ◌/◌, ◌^◌, Bool, true, false, not, ◌&&◌, ◌||◌, Option, none, some, List, [], ◌∷◌,
  ◌++◌, map, Text, lit, text_eq, lower, strip, ends_with, drop_while, is_empty, any, all, length,
  leb, ltb, ◌==◌, if◌then◌else◌,
}
use edufurther_agent_be.Errors.{PyError, value_error, Result, ok, raise}
use edufurther_agent_be.Python.Urls.{UrlLib, SplitUrl, urlsplit, urlunsplit, hostname}
use edufurther_agent_be.Tools.Urls.{canonicalize_url}

-- An address by its number.
pub data IpAddress : Type 0 where
  v4 v6 : ℕ → IpAddress

-- A response whose body is read in chunks of bytes.
pub record Response : Type 0 where
  pub status_code : ℕ
  pub location : Option Text
  pub content_type : Text
  pub chunks : List (List ℕ)

pub record Network : Type 0 where
  pub urls : UrlLib
  pub urljoin : Text → Text → Text
  pub getaddrinfo : Text → Option (List IpAddress)
  pub is_multicast : IpAddress → Bool
  pub is_unspecified : IpAddress → Bool
  pub is_global : IpAddress → Bool
  pub get : Text → Result Response

unfoldable pub refusal : Text → PyError
refusal message = record {
  kind = value_error;
  type_name = lit "ValueError";
  status_code = none;
  message = message;
}

-- `ip in _CARRIER_GRADE_NAT`: 100.64.0.0/10
unfoldable pub in_carrier_grade_nat : IpAddress → Bool
in_carrier_grade_nat (v4 n) = (n / 2 ^ 22) == 401
in_carrier_grade_nat (v6 n) = false

module _ (net : Network) where
  unfoldable pub is_public_address : IpAddress → Bool
  unfolding in_carrier_grade_nat
  is_public_address ip =
      if in_carrier_grade_nat ip
      then false
      else if net.is_multicast ip || net.is_unspecified ip
      then false
      else net.is_global ip

  unfoldable pub is_public_host : Text → Result Bool
  unfolding is_public_address
  is_public_host host = elim (net.getaddrinfo host) [
    | none ↦ raise (refusal (lit "Source hostname could not be resolved"))
    | some addresses ↦ ok (not (is_empty addresses) && all is_public_address addresses)
  ]

-- `hostname == domain or hostname.endswith(f".{domain}")` for an entry of the allowlist
unfoldable pub in_domain : Text → Text → Bool
in_domain host domain = text_eq host domain || ends_with (b'.' ∷ domain) host

unfoldable pub is_approved : List Text → Text → Bool
unfolding in_domain
is_approved approved_domains host =
    any (in_domain host)
      (map (λ domain. drop_while (λ c. c == b'.') (lower domain)) approved_domains)

-- `urlsplit(url).hostname or ""`, of a URL that was split before
unfoldable pub host_of : UrlLib → Text → Text
host_of lib url = elim (urlsplit lib url) [ none ↦ [] | some parts ↦ hostname parts ]

unfoldable pub path_of : UrlLib → Text → Text
path_of lib url = elim (urlsplit lib url) [ none ↦ [] | some parts ↦ parts.path ]

unfoldable pub with_slash : SplitUrl → Text → Text
with_slash parts normalized =
    if is_empty parts.path || ends_with (lit "/") parts.path
    then normalized
    else urlunsplit (record parts { path = parts.path ++ lit "/" })

-- `_restore_trailing_slash`
unfoldable pub restore_trailing_slash : UrlLib → Text → Text → Text
unfolding path_of with_slash
restore_trailing_slash lib original normalized =
    if not (ends_with (lit "/") (path_of lib (strip original)))
    then normalized
    else elim (urlsplit lib normalized) [
      | none ↦ normalized
      | some parts ↦ with_slash parts normalized
    ]

module _ (net : Network) (approved_domains : List Text) (allow_any_public_domain : Bool) where
  -- The network guard, behind the allowlist.
  unfoldable pub check_host : Text → Text → Text → Result Text
  check_host url normalized host = elim (is_public_host net host) [
    | raise exc ↦ raise exc
    | ok public ↦
        if public
        then ok (restore_trailing_slash net.urls url normalized)
        else raise (refusal (lit "Private or reserved source host is not allowed"))
  ]

  unfoldable pub validate_source_url : Text → Result Text
  unfolding check_host
  validate_source_url url = elim (canonicalize_url net.urls url) [
    | none ↦ raise (refusal (lit "Only absolute HTTP(S) URLs are allowed"))
    | some normalized ↦
        let host = host_of net.urls normalized in
        if not allow_any_public_domain && not (is_approved approved_domains host)
        then raise (refusal (lit "Source URL domain is not approved"))
        else check_host url normalized host
  ]

pub record FetchedSource : Type 0 where
  pub url : Text
  pub status_code : ℕ
  pub content : List ℕ
  pub content_type : Text

-- `_read_bounded`: the loop over the chunks, with the bytes read so far.
unfoldable pub read_chunks : ℕ → List ℕ → List (List ℕ) → Result (List ℕ)
read_chunks max_bytes content [] = ok content
read_chunks max_bytes content (chunk ∷ chunks) =
    let rest = read_chunks max_bytes (content ++ chunk) chunks in
    if ltb max_bytes (length content + length chunk)
    then raise (refusal (lit "Source response exceeds maximum size"))
    else rest

unfoldable pub read_bounded : ℕ → Response → Result (List ℕ)
unfolding read_chunks
read_bounded max_bytes response = read_chunks max_bytes [] response.chunks

-- `300 <= status < 400`
abbrev pub is_redirect : ℕ → Bool
is_redirect status = leb 300 status && ltb status 400

module _ (net : Network) (approved_domains : List Text) (allow_any_public_domain : Bool) where
  abbrev validate : Text → Result Text
  validate = validate_source_url net approved_domains allow_any_public_domain

  -- `_get_once`: the response with the URL that was requested, and the requests that were sent.
  unfoldable pub get_once : Text → Result (Response × Text) × List Text
  get_once url = elim (validate url) [
    | raise exc ↦ (raise exc, [])
    | ok validated ↦ elim (net.get validated) [
      | raise exc ↦ (raise exc, validated ∷ [])
      | ok response ↦ (ok (response, validated), validated ∷ [])
    ]
  ]

  abbrev finish : ℕ → Response → Text → Result FetchedSource
  finish max_bytes response url = elim (read_bounded max_bytes response) [
    | raise exc ↦ raise exc
    | ok content ↦ ok (record {
      url = url;
      status_code = response.status_code;
      content = content;
      content_type = response.content_type;
    })
  ]

  -- The second hop of a redirect, and the body.
  unfoldable pub follow : ℕ → Response → Text → Result FetchedSource × List Text
  unfolding get_once
  follow max_bytes response url = elim response.location [
    | none ↦ (raise (refusal (lit "Redirect has no destination")), [])
    | some location ↦
        if is_empty location
        then (raise (refusal (lit "Redirect has no destination")), [])
        else let (hop, sent) = get_once (net.urljoin url location) in
          elim hop [ raise exc ↦ (raise exc, sent) | ok (r, u) ↦ (finish max_bytes r u, sent) ]
  ]

  -- `fetch_source`, with every request that it sends.
  unfoldable pub fetch_source : ℕ → Text → Result FetchedSource × List Text
  unfolding get_once follow
  fetch_source max_bytes url = elim (validate url) [
    | raise exc ↦ (raise exc, [])
    | ok normalized ↦
        let (hop, sent) = get_once normalized in
        elim hop [
          | raise exc ↦ (raise exc, sent)
          | ok (response, u) ↦
              let (result, more) = follow max_bytes response u in
              if is_redirect response.status_code
              then (result, sent ++ more)
              else (finish max_bytes response u, sent)
        ]
  ]
