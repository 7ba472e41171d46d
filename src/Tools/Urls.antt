-- ===== src/Tools/Urls.antt =====
-- src/app/tools/urls.py: the canonical form of a URL.
use edufurther_agent_be.Base.{
  ℕ, Bool, not, ◌&&◌, ◌||◌, Option, none, some, [], ◌∷◌, ◌++◌, Text, lit, text_eq, contains_text,
  lower, strip, starts_with, rstrip_by, drop_while, is_empty, keep, show_nat, ◌==◌, if◌then◌else◌,
}
use edufurther_agent_be.Python.Urls.{
  UrlLib, SplitUrl, urlsplit, urlunsplit, hostname, port, parse_qsl, urlencode,
}

-- `none` is the `ValueError` of a blank entry.
unfoldable pub normalize_domain : Text → Option Text
normalize_domain value =
    let domain = drop_while (λ c. c == b'.') (lower (strip value)) in
    if is_empty domain then none else some domain

abbrev pub is_http : Text → Bool
is_http scheme = text_eq scheme (lit "http") || text_eq scheme (lit "https")

-- The port is part of the location unless it is missing, 0 or the scheme's own.
unfoldable pub is_default_port : Text → ℕ → Bool
is_default_port scheme n =
    (n == 0)
    || ((text_eq scheme (lit "http") && (n == 80)) || (text_eq scheme (lit "https") && (n == 443)))

unfoldable pub canonical_netloc : Text → Text → Option ℕ → Text
unfolding is_default_port
canonical_netloc scheme host none = host
canonical_netloc scheme host (some n) =
    if is_default_port scheme n then host else host ++ lit ":" ++ show_nat n

-- A parameter that only tracks.
unfoldable pub is_tracking : Text × Text → Bool
is_tracking (key, value) =
    starts_with (lit "utm_") (lower key)
    || contains_text (lower key) (lit "fbclid" ∷ lit "gclid" ∷ [])

unfoldable pub canonical_path : Text → Text
canonical_path path =
    let p = if is_empty path then lit "/" else path in
    if text_eq p (lit "/") then p else rstrip_by (λ c. c == b'/') p

unfoldable pub canonical_parts : UrlLib → SplitUrl → Option ℕ → SplitUrl
unfolding canonical_netloc is_tracking canonical_path
canonical_parts lib parts number =
    let scheme = lower parts.scheme in
    record {
      scheme = scheme;
      netloc = canonical_netloc scheme (hostname parts) number;
      path = canonical_path parts.path;
      query = urlencode lib (keep (λ e. not (is_tracking e)) (parse_qsl lib parts.query));
      fragment = [];
    }

-- `none` is a `ValueError`.
unfoldable pub canonicalize_url : UrlLib → Text → Option Text
unfolding canonical_parts
canonicalize_url lib value = elim (urlsplit lib (strip value)) [
  | none ↦ none
  | some parts ↦
      if is_http (lower parts.scheme) && not (is_empty parts.netloc)
      then elim (port parts) [
        | none ↦ none
        | some number ↦ some (urlunsplit (canonical_parts lib parts number))
      ]
      else none
]
