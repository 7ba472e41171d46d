-- ===== src/Python/Urls.antt =====
-- `urllib.parse`: `urlsplit`, `urlunsplit`, `parse_qsl` and `urlencode`, and the attributes of a split
-- URL. Two of its parts stay parameters: the checks of a network location (bracketed addresses, and
-- characters that NFKC turns into separators), and the percent coding of one word by UTF-8.
use edufurther_agent_be.Base.{
  ℕ, ◌+◌, ◌-◌, ◌*◌, Bool, false, not, ◌&&◌, ◌||◌, Option, none, some, List, [], ◌∷◌, ◌++◌, map,
  Text, lit, lower, split_on, join, starts_with, drop_while, is_empty, any, all, keep, drop, leb,
  ◌==◌, if◌then◌else◌,
}

pub record UrlLib : Type 0 where
  pub valid_netloc : Text → Bool
  pub unquote : Text → Text
  pub quote_plus : Text → Text

-- `s.partition(c)` where `c` occurs.
unfoldable pub partition_at : ℕ → Text → Option (Text × Text)
partition_at c [] = none
partition_at c (x ∷ xs) =
    if x == c
    then some ([], xs)
    else elim (partition_at c xs) [ none ↦ none | some (a, b) ↦ some (x ∷ a, b) ]

-- The part in front of the first `c`, and the part behind it, which is empty without one.
abbrev pub before : ℕ → Text → Text
before c s = elim (partition_at c s) [ none ↦ s | some (a, b) ↦ a ]

abbrev pub behind : ℕ → Text → Text
behind c s = elim (partition_at c s) [ none ↦ [] | some (a, b) ↦ b ]

-- `s.rpartition(c)[2]`: the part behind the last `c`.
unfoldable pub behind_last : ℕ → Text → Text
behind_last c [] = []
behind_last c (x ∷ xs) =
    if any (λ y. y == c) (x ∷ xs)
    then (let rest = behind_last c xs in
        if any (λ y. y == c) xs then rest else if x == c then xs else rest)
    else x ∷ xs

pub record SplitUrl : Type 0 where
  pub scheme : Text
  pub netloc : Text
  pub path : Text
  pub query : Text
  pub fragment : Text

abbrev is_alpha : ℕ → Bool
is_alpha c = (leb b'a' c && leb c b'z') || (leb b'A' c && leb c b'Z')

abbrev is_digit : ℕ → Bool
is_digit c = leb b'0' c && leb c b'9'

abbrev is_scheme_char : ℕ → Bool
is_scheme_char c = is_alpha c || (is_digit c || ((c == b'+') || ((c == b'-') || (c == b'.'))))

abbrev starts_alpha : Text → Bool
starts_alpha [] = false
starts_alpha (c ∷ cs) = is_alpha c

-- The scheme, where the text has one, and the rest.
unfoldable pub split_scheme : Text → Text × Text
unfolding partition_at
split_scheme url = elim (partition_at b':' url) [
  | none ↦ ([], url)
  | some (head, rest) ↦
      if starts_alpha head && all is_scheme_char head then (lower head, rest) else ([], url)
]

abbrev ends_netloc : ℕ → Bool
ends_netloc c = (c == b'/') || ((c == b'?') || (c == b'#'))

-- `_splitnetloc`
unfoldable pub split_netloc : Text → Text × Text
split_netloc [] = ([], [])
split_netloc (x ∷ xs) =
    let (a, b) = split_netloc xs in if ends_netloc x then ([], x ∷ xs) else (x ∷ a, b)

-- The network location behind `//`, and the rest.
unfoldable pub take_netloc : Text → Text × Text
unfolding split_netloc
take_netloc url = if starts_with (lit "//") url then split_netloc (drop 2 url) else ([], url)

-- Control characters and spaces go at the front, and tabs and line ends everywhere.
unfoldable pub clean_url : Text → Text
clean_url url =
    keep (λ c. not ((c == 9) || ((c == 10) || (c == 13)))) (drop_while (λ c. leb c 32) url)

-- `none` is a `ValueError`.
unfoldable pub urlsplit : UrlLib → Text → Option SplitUrl
unfolding clean_url split_scheme take_netloc
urlsplit lib url =
    let (scheme, rest) = split_scheme (clean_url url) in
    let (netloc, tail) = take_netloc rest in
    let front = before b'#' tail in
    if lib.valid_netloc netloc
    then some (record {
      scheme = scheme;
      netloc = netloc;
      path = before b'?' front;
      query = behind b'?' front;
      fragment = behind b'#' tail;
    })
    else none

-- `_hostinfo`: the host and the port as texts.
unfoldable pub host_info : Text → Text × Text
unfolding partition_at behind_last
host_info netloc =
    let info = behind_last b'@' netloc in
    elim (partition_at b'[' info) [
      | some (outer, bracketed) ↦ (before b']' bracketed, behind b':' (behind b']' bracketed))
      | none ↦ (before b':' info, behind b':' info)
    ]

-- `parts.hostname or ""`; what stands behind a `%` is a zone and keeps its case.
unfoldable pub hostname : SplitUrl → Text
unfolding host_info
hostname parts =
    let host = (host_info parts.netloc).0 in
    elim (partition_at b'%' host) [ none ↦ lower host | some (h, zone) ↦ lower h ++ b'%' ∷ zone ]

unfoldable pub decimal_value : ℕ → Text → ℕ
decimal_value acc [] = acc
decimal_value acc (c ∷ cs) = decimal_value (acc * 10 + (c - b'0')) cs

-- `parts.port`: `none` is a `ValueError`, and `some none` is no port.
unfoldable pub port : SplitUrl → Option (Option ℕ)
unfolding host_info decimal_value
port parts =
    let text = (host_info parts.netloc).1 in
    if is_empty text
    then some none
    else if all is_digit text && leb (decimal_value 0 text) 65535
    then some (some (decimal_value 0 text))
    else none

-- `urlunsplit` with a scheme that takes a network location, as `http` and `https` do.
unfoldable pub urlunsplit : SplitUrl → Text
urlunsplit parts =
    let slash = if is_empty parts.path || starts_with (lit "/") parts.path then [] else lit "/" in
    parts.scheme
    ++ lit "://"
    ++ parts.netloc
    ++ slash
    ++ parts.path
    ++ (if is_empty parts.query then [] else b'?' ∷ parts.query)
    ++ (if is_empty parts.fragment then [] else b'#' ∷ parts.fragment)

abbrev plus_to_space : Text → Text
plus_to_space = map (λ c. if c == b'+' then 32 else c)

-- `parse_qsl(query, keep_blank_values=True)`
unfoldable pub parse_qsl : UrlLib → Text → List (Text × Text)
parse_qsl lib query =
    map
      (λ word. (
        lib.unquote (plus_to_space (before b'=' word)),
        lib.unquote (plus_to_space (behind b'=' word)),
      ))
      (keep (λ word. not (is_empty word)) (split_on b'&' query))

unfoldable pub urlencode : UrlLib → List (Text × Text) → Text
urlencode lib query =
    join (lit "&") (map (λ e. lib.quote_plus e.0 ++ b'=' ∷ lib.quote_plus e.1) query)
