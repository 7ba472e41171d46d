-- ===== src/Tools/Retrieval/Pages.antt =====
-- The pages that a retrieval hands on.
use edufurther_agent_be.Base.{◌≤◌, ◌<◌, ◌≡◌, ◌⊎◌, Bool, some, List, Text, arith}
use edufurther_agent_be.Errors.{ok}
use edufurther_agent_be.Settings.{Settings}
use edufurther_agent_be.Tools.Budget.{Usage}
use edufurther_agent_be.Tools.DirectFetch.{Network, validate_source_url}
use edufurther_agent_be.Tools.Retrieval.{
  Jina, RetrievedPage, direct_method, jina_method, direct, direct_official, try_jina, read_via_jina,
  fetch_official_page, body_chars, min_usable_body_chars,
}

module _ (settings : Settings) (api : Jina) (net : Network) (period : Text)
    (approved : List Text) where
  try_jina-method :
      (url : Text) (usage usage' : Usage) (page : RetrievedPage)
      → try_jina settings api net period url usage ≡ (ok (some page), usage')
      → page.fetch_method ≡ jina_method
  unfolding try_jina read_via_jina
  try_jina-method url usage usage' page h = ground arith

  direct_official-ok :
      (any_domain : Bool) (url : Text) (page : RetrievedPage)
      → direct_official settings api net period approved any_domain url ≡ ok page
      → (page.fetch_method ≡ direct_method) × (page.status_code < 400)
  unfolding direct_official direct
  direct_official-ok any_domain url page h = ground arith

  -- An official page is either the reader's, with a body that is long enough to be a page, or a direct
  -- fetch that was no error.
  pub fetch_official_page_usable :
      (any_domain : Bool) (url v : Text) (usage usage' : Usage) (page : RetrievedPage)
      → validate_source_url net approved any_domain url ≡ ok v
      → fetch_official_page settings api net period approved any_domain url usage
        ≡ (ok page, usage')
      → ((page.fetch_method ≡ jina_method) × (min_usable_body_chars ≤ body_chars page))
        ⊎ ((page.fetch_method ≡ direct_method) × (page.status_code < 400))
  unfolding fetch_official_page
  fetch_official_page_usable any_domain url v usage usage' page e h =
      ground (arith, try_jina-method v usage usage' page, direct_official-ok any_domain v page)
