-- ===== src/Scholarship/Sources/Grounds.antt =====
-- On what grounds a page is taken for official.
use mathlib.Core.Path.{subst}
use edufurther_agent_be.Base.{
  ◌≡◌, refl, ◌⊎◌, inl, inr, true, false, not, ◌||◌, Option, none, some, List, [], ◌∷◌, Text,
  text_eq, lit, is_empty, get_or, arith, Bool-cases, Option-cases,
}
use edufurther_agent_be.Errors.{ok, Result-cases}
use edufurther_agent_be.Settings.{Settings}
use edufurther_agent_be.Python.Urls.{UrlLib, SplitUrl, urlsplit, hostname}
use edufurther_agent_be.Tools.Budget.{Usage}
use edufurther_agent_be.Tools.Retrieval.{Jina, SearchResult, search_web}
use edufurther_agent_be.Tools.DirectFetch.{Network}
use edufurther_agent_be.Scholarship.Schemas.{Candidate}
use edufurther_agent_be.Scholarship.Normalization.{Unicode}
use edufurther_agent_be.Scholarship.OfficialSource.{
  host_labels, search_query, pick_official, host_in,
}
use edufurther_agent_be.Scholarship.OfficialSource.Choice.{Picked, pick_official_lem}
use edufurther_agent_be.Scholarship.Sources.{
  Discovery, add_reason, same_page, any_same_page, registrable, is_authoritative, own_page_reason,
  same_domain_reason, adopt, search_for_official, weigh_link, find_official,
}

module _ (lib : UrlLib) (unicode : Unicode) (settings : Settings) (api : Jina) (net : Network)
    (period : Text) (d : Discovery) (source : SplitUrl) where
  -- The page was chosen among the results that the search for the title gave.
  abbrev pub BySearch : Text → Usage → Text → Type 0
  BySearch title usage u =
      (results : List SearchResult) × (r : SearchResult) × ((search_web settings api net period
          (search_query title d.provider_name) usage).0
        ≡ ok results)
      × Picked lib unicode title results (host_labels (hostname source)) (host_in source ∷ []) r
      × (r.url ≡ u)

  -- The page is the candidate's own link: another page than the source's, in another domain unless the
  -- source is authoritative.
  abbrev pub ByLink : Option Text → Text → Type 0
  ByLink url u =
      (parts : SplitUrl) × (url ≡ some u)
      × (urlsplit lib u ≡ some parts)
      × (same_page lib u d.source_url ≡ ok false)
      × ((text_eq (registrable (hostname parts)) (registrable (hostname source)) ≡ false)
          ⊎ (is_authoritative d.authority_grade ≡ true))

  adopt-BySearch :
      (results : List SearchResult) (c found : Candidate) (u : Text) (usage : Usage)
      → (search_web settings api net period (search_query c.title d.provider_name) usage).0
        ≡ ok results
      → adopt lib unicode settings api net period d source results c ≡ ok found
      → c.official_url ≡ none
      → found.official_url ≡ some u
      → BySearch c.title usage u
  unfolding adopt add_reason
  adopt-BySearch results c found u usage s h n o =
      elim (Result-cases (
        pick_official lib unicode c.title results (host_labels (hostname source))
          (host_in source ∷ []))) [
            | inl (exc, e) ↦ absurd (ground arith)
            | inr (none, e) ↦ elim (Result-cases (any_same_page lib d.source_url results)) [
              | inl (exc, f) ↦ absurd (ground arith)
              | inr (true, f) ↦ absurd (ground arith)
              | inr (false, f) ↦ absurd (ground arith)
            ]
            | inr (some r, e) ↦ (
              results,
              r,
              s,
              pick_official_lem lib unicode c.title results (host_labels (hostname source))
                  (host_in source ∷ []) r e,
              ground arith,
            )
          ]

  search_for_official-BySearch :
      (c found : Candidate) (u : Text) (usage usage' : Usage)
      → search_for_official lib unicode settings api net period d source c usage
        ≡ (ok found, usage')
      → c.official_url ≡ none
      → found.official_url ≡ some u
      → BySearch c.title usage u
  unfolding search_for_official add_reason
  search_for_official-BySearch c found u usage usage' h n o =
      elim (Result-cases
        (search_web settings api net period (search_query c.title d.provider_name) usage).0) [
          | inl (exc, e) ↦ absurd (ground arith)
          | inr ([], e) ↦ absurd (ground arith)
          | inr (r ∷ rs, e) ↦ adopt-BySearch (r ∷ rs) c found u usage e (ground arith) n o
        ]

  own_link : (url : Option Text) → is_empty (get_or url []) ≡ false → url ≡ some (get_or url [])
  own_link none h = cc
  own_link (some u) h = refl

  weigh_link-grounds :
      (parts : SplitUrl) (url : Text) (c found : Candidate) (u : Text) (usage usage' : Usage)
      → c.url ≡ some url
      → urlsplit lib url ≡ some parts
      → weigh_link lib unicode settings api net period d source url
          (registrable (hostname parts))
          c
          usage
        ≡ (ok found, usage')
      → c.official_url ≡ none
      → found.official_url ≡ some u
      → ByLink c.url u ⊎ BySearch c.title usage u
  unfolding weigh_link add_reason
  weigh_link-grounds parts url c found u usage usage' own split h n o =
      elim (Result-cases (same_page lib url d.source_url)) [
        | inl (exc, e) ↦ absurd (ground arith)
        | inr (true, e) ↦ inr (
            search_for_official-BySearch (add_reason own_page_reason c) found u usage usage'
              (ground arith) n o)
        | inr (false, e) ↦
            elim (Bool-cases (
              not (text_eq (registrable (hostname parts)) (registrable (hostname source)))
              || is_authoritative d.authority_grade)) [
                | inl y ↦
                    let same : url ≡ u = ground arith in
                    inl (subst (ByLink c.url) same (parts, own, split, e, apart y))
                | inr f ↦ inr (
                    search_for_official-BySearch
                      (add_reason (same_domain_reason d.authority_grade) c) found u usage usage'
                      (ground arith) n o)
              ]
      ]
    where
      apart :
          not (text_eq (registrable (hostname parts)) (registrable (hostname source)))
              || is_authoritative d.authority_grade
            ≡ true
          → (text_eq (registrable (hostname parts)) (registrable (hostname source)) ≡ false)
            ⊎ (is_authoritative d.authority_grade ≡ true)
      apart y = ground arith

  -- Where a candidate without an official page gets one, it is either the candidate's own link, another
  -- page than the source's and in another domain unless the source is authoritative, or it was chosen
  -- among the results that the search for its title and the source's provider gave: an http or https
  -- page away from the source's host and labels, with the award's words in its domain, or a public body
  -- beside another of these results with the words in its domain.
  pub find_official_grounds :
      (c found : Candidate) (u : Text) (usage usage' : Usage)
      → find_official lib unicode settings api net period d source c usage ≡ (ok found, usage')
      → c.official_url ≡ none
      → found.official_url ≡ some u
      → ByLink c.url u ⊎ BySearch c.title usage u
  unfolding find_official add_reason
  find_official_grounds c found u usage usage' h n o =
      elim (Bool-cases (is_empty (get_or c.url []))) [
        | inl y ↦ inr (
            search_for_official-BySearch (add_reason (lit "candidate has no link of its own") c)
              found u usage usage' (ground arith) n o)
        | inr f ↦ elim (Option-cases (urlsplit lib (get_or c.url []))) [
          | inl e ↦ absurd (ground arith)
          | inr (parts, e) ↦ elim (Bool-cases (is_empty (registrable (hostname parts)))) [
            | inl y ↦ absurd (ground arith)
            | inr g ↦
                weigh_link-grounds parts (get_or c.url []) c found u usage usage' (own_link c.url f)
                  e (ground arith) n o
          ]
        ]
      ]
