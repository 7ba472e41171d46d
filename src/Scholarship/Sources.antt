-- ===== src/Scholarship/Sources.antt =====
-- `find_official_source` of src/app/usecases/scholarship_finder/nodes.py: which page stands for a
-- candidate's provider. The searches share the reader's budget, which is passed along.
pub mod Grounds
use edufurther_agent_be.Base.{
  ℕ, ◌+◌, Bool, true, false, not, ◌&&◌, ◌||◌, Option, none, some, List, [], ◌∷◌, ◌++◌, Text, lit,
  text_eq, contains_text, starts_with, lower, strip, rstrip_by, drop, split_on, join, is_empty,
  length, leb, show_nat, get_or, ◌==◌, if◌then◌else◌,
}
use edufurther_agent_be.Errors.{PyError, Result, ok, raise}
use edufurther_agent_be.Settings.{Settings}
use edufurther_agent_be.Python.Urls.{UrlLib, SplitUrl, urlsplit, hostname}
use edufurther_agent_be.Tools.Budget.{Usage}
use edufurther_agent_be.Tools.Retrieval.{Jina, SearchResult, search_web}
use edufurther_agent_be.Tools.DirectFetch.{Network}
use edufurther_agent_be.Scholarship.Schemas.{Candidate, has_text}
use edufurther_agent_be.Scholarship.Normalization.{Unicode}
use edufurther_agent_be.Scholarship.OfficialSource.{
  host_labels, search_query, pick_official, split_error, host_in,
}

-- `".".join(parts[-2:])`
unfoldable pub last_two : List Text → List Text
last_two (a ∷ b ∷ c ∷ rest) = last_two (b ∷ c ∷ rest)
last_two parts = parts

unfoldable pub registrable : Text → Text
unfolding last_two
registrable host =
    let parts = split_on b'.' (lower host) in
    if leb 2 (length parts) then join (lit ".") (last_two parts) else lower host

-- `removeprefix("www.")`
unfoldable pub without_www : Text → Text
without_www host = if starts_with (lit "www.") host then drop 4 host else host

-- The three parts by which pages are compared.
pub record PageKey : Type 0 where
  pub host : Text
  pub path : Text
  pub query : Text

unfoldable pub page_key : SplitUrl → PageKey
unfolding without_www
page_key parts = record {
  host = without_www (host_in parts);
  path = rstrip_by (λ c. c == b'/') parts.path;
  query = parts.query;
}

unfoldable pub same_key : PageKey → PageKey → Bool
same_key a b = text_eq a.host b.host && (text_eq a.path b.path && text_eq a.query b.query)

-- `_same_page`
unfoldable pub same_page : UrlLib → Text → Text → Result Bool
unfolding page_key same_key
same_page lib a b = if is_empty a || is_empty b then ok false else elim (urlsplit lib (strip a)) [
  | none ↦ raise split_error
  | some x ↦ elim (urlsplit lib (strip b)) [
    | none ↦ raise split_error
    | some y ↦ ok (same_key (page_key x) (page_key y))
  ]
]

-- `any(_same_page(item.url, source_url) for item in results)`
unfoldable pub any_same_page : UrlLib → Text → List SearchResult → Result Bool
unfolding same_page
any_same_page lib source_url [] = ok false
any_same_page lib source_url (item ∷ items) =
    let rest = any_same_page lib source_url items in
    elim (same_page lib item.url source_url) [
      | raise exc ↦ raise exc
      | ok b ↦ if b then ok true else rest
    ]

-- What the nodes read of the discovery.
pub record Discovery : Type 0 where
  pub discovery_id : Text
  pub raw_title : Option Text
  pub raw_excerpt : Option Text
  pub source_url : Text
  pub authority_grade : Text
  pub provider_name : Option Text

unfoldable pub is_authoritative : Text → Bool
is_authoritative grade = contains_text grade (lit "A" ∷ lit "a" ∷ lit "B" ∷ lit "b" ∷ [])

-- `candidate.uncertainty_reasons.append(reason)`
unfoldable pub add_reason : Text → Candidate → Candidate
add_reason reason c = record c { uncertainty_reasons = c.uncertainty_reasons ++ reason ∷ [] }

unfoldable pub own_page_reason : Text
own_page_reason =
    lit "the only candidate link is the discovery's own page, which cannot corroborate itself"

unfoldable pub same_domain_reason : Text → Text
same_domain_reason grade =
    lit "candidate link stays on a grade-"
    ++ (if is_empty grade then lit "?" else grade)
    ++ lit " source domain, so it is not official evidence"

module _ (lib : UrlLib) (unicode : Unicode) (settings : Settings) (api : Jina) (net : Network)
    (period : Text) (d : Discovery) where
  -- What is made of the results of a search, where `source` is the split URL of the source.
  unfoldable pub adopt : SplitUrl → List SearchResult → Candidate → Result Candidate
  unfolding add_reason any_same_page
  adopt source results c =
      elim (pick_official lib unicode c.title results (host_labels (hostname source))
        (host_in source ∷ [])) [
          | raise exc ↦ raise exc
          | ok (some chosen) ↦ ok (
              add_reason (lit "official page identified by search: " ++ chosen.url)
                (record c { official_url = some chosen.url }))
          | ok none ↦ elim (any_same_page lib d.source_url results) [
            | raise exc ↦ raise exc
            | ok true ↦ ok (
                add_reason
                  (lit "search found the discovery's own page, which cannot corroborate itself") c)
            | ok false ↦ ok (
                add_reason
                  (lit "search returned "
                    ++ show_nat (length results)
                    ++ lit " result(s), none on a domain naming this award")
                  c)
          ]
        ]

  -- `_search_for_official`
  unfoldable pub search_for_official : SplitUrl → Candidate → Usage → Result Candidate × Usage
  unfolding adopt add_reason
  search_for_official source c usage =
      if has_text c.official_url
      then (ok c, usage)
      else let (found, usage') =
          search_web settings api net period (search_query c.title d.provider_name) usage in
        elim found [
          | raise exc ↦ (raise exc, usage')
          | ok [] ↦ (ok (add_reason (lit "no official source found") c), usage')
          | ok (r ∷ rs) ↦ (adopt source (r ∷ rs) c, usage')
        ]

  -- A candidate with a link whose host is not empty.
  unfoldable pub weigh_link : SplitUrl → Text → Text → Candidate → Usage → Result Candidate × Usage
  unfolding search_for_official add_reason same_page
  weigh_link source url host c usage = elim (same_page lib url d.source_url) [
    | raise exc ↦ (raise exc, usage)
    | ok true ↦ search_for_official source (add_reason own_page_reason c) usage
    | ok false ↦
        if not (text_eq host (registrable (hostname source))) || is_authoritative d.authority_grade
        then (ok (record c { official_url = some url }), usage)
        else search_for_official source (add_reason (same_domain_reason d.authority_grade) c) usage
  ]

  -- One turn of the loop.
  unfoldable pub find_official : SplitUrl → Candidate → Usage → Result Candidate × Usage
  unfolding weigh_link
  find_official source c usage =
      let url = get_or c.url [] in
      if is_empty url
      then search_for_official source (add_reason (lit "candidate has no link of its own") c) usage
      else elim (urlsplit lib url) [
        | none ↦ (raise split_error, usage)
        | some parts ↦
            let host = registrable (hostname parts) in
            if is_empty host then (ok c, usage) else weigh_link source url host c usage
      ]

  unfoldable pub find_each : SplitUrl → List Candidate → Usage → Result (List Candidate) × Usage
  unfolding find_official
  find_each source [] usage = (ok [], usage)
  find_each source (c ∷ cs) usage =
      let (first, usage') = find_official source c usage in
      let (rest, final) = find_each source cs usage' in
      elim first [
        | raise exc ↦ (raise exc, usage')
        | ok found ↦ elim rest [
          | raise exc ↦ (raise exc, final)
          | ok others ↦ (ok (found ∷ others), final)
        ]
      ]

  unfoldable pub find_official_source : List Candidate → Usage → Result (List Candidate) × Usage
  unfolding find_each
  find_official_source candidates usage = elim (urlsplit lib d.source_url) [
    | none ↦ (raise split_error, usage)
    | some source ↦ find_each source candidates usage
  ]
