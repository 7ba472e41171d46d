-- ===== src/Scholarship/OfficialPages/Isolation.antt =====
-- What becomes of each candidate whose official page is fetched.
use edufurther_agent_be.Base.{
  ◌≤◌, ◌<◌, ◌≡◌, refl, ◌⊎◌, inl, inr, true, false, Option, none, some, List, [], ◌∷◌, Text, get_or,
  arith, Bool-cases,
}
use edufurther_agent_be.Errors.{PyError, ok, Result-cases}
use edufurther_agent_be.Settings.{Settings}
use edufurther_agent_be.Tools.Budget.{Usage}
use edufurther_agent_be.Tools.DirectFetch.{Network, validate_source_url}
use edufurther_agent_be.Tools.Retrieval.{
  Jina, RetrievedPage, fetch_official_page, direct_method, jina_method, body_chars,
  min_usable_body_chars,
}
use edufurther_agent_be.Tools.Retrieval.Pages.{fetch_official_page_usable}
use edufurther_agent_be.Tools.Retrieval.Refusal.{refused_up_front}
use edufurther_agent_be.Scholarship.Schemas.{Candidate, has_text}
use edufurther_agent_be.Scholarship.Sources.{add_reason}
use edufurther_agent_be.Scholarship.OfficialPages.{
  Texts, with_page, fetch_failure, take_page, fetch_one, fetch_official,
}

-- A page that can be read: rendered with a body long enough, or fetched without an error.
abbrev pub IsReadable : RetrievedPage → Type 0
IsReadable page =
    ((page.fetch_method ≡ jina_method) × (min_usable_body_chars ≤ body_chars page))
    ⊎ ((page.fetch_method ≡ direct_method) × (page.status_code < 400))

-- A candidate with what has become of it.
abbrev pub Turned : Text → Candidate → Candidate → Type 0
Turned now c c' =
    ((has_text c.official_url ≡ false) × (c' ≡ c))
    ⊎ (((exc : PyError) × (c' ≡ add_reason (fetch_failure exc) c))
        ⊎ ((url : Text) × (page : RetrievedPage) × (c.official_url ≡ some url)
            × IsReadable page
            × (c' ≡ with_page now url page c)))

-- The relation holds of two lists, position by position.
abbrev pub Pairwise : (Candidate → Candidate → Type 0) → List Candidate → List Candidate → Type 0
Pairwise R [] [] = Unit
Pairwise R (c ∷ cs) (d ∷ ds) = R c d × Pairwise R cs ds
Pairwise R _ _ = ⊥

own_url : (url : Option Text) → has_text url ≡ true → url ≡ some (get_or url [])
own_url none h = cc
own_url (some u) h = refl

module _ (settings : Settings) (api : Jina) (net : Network) (period : Text) (approved : List Text)
    (now : Text) where
  page-IsReadable :
      (url : Text) (usage usage' : Usage) (page : RetrievedPage)
      → fetch_official_page settings api net period approved true url usage ≡ (ok page, usage')
      → IsReadable page
  page-IsReadable url usage usage' page h =
      elim (Result-cases (validate_source_url net approved true url)) [
        | inr (v, e) ↦
            fetch_official_page_usable settings api net period approved true url v usage usage' page
              e h
        | inl (exc, e) ↦
            absurd (
              ground
                (arith, refused_up_front settings api net period approved true url usage exc e))
      ]

  fetch_one-Turned :
      (c : Candidate) (texts : Texts) (usage : Usage)
      → Turned now c (fetch_one settings api net period approved now c texts usage).candidate
  unfolding fetch_one take_page
  fetch_one-Turned c texts usage = elim (Bool-cases (has_text c.official_url)) [
    | inr n ↦ inl (n, ground arith)
    | inl y ↦
        let url = get_or c.official_url [] in
        elim (Result-cases
          (fetch_official_page settings api net period approved true url usage).0) [
            | inl (exc, e) ↦ inr (inl (exc, ground arith))
            | inr (page, e) ↦ inr (
                inr (
                  url,
                  page,
                  own_url c.official_url y,
                  page-IsReadable url usage
                      (fetch_official_page settings api net period approved true url usage).1 page
                      (ground arith),
                  ground arith,
                ))
          ]
  ]

  -- Whatever the fetches raise, every candidate keeps its place: without an official page it stays as
  -- it is; with one it has a reason more and nothing else changed, or it has its page, which could be
  -- read, as evidence.
  pub fetch_official-Pairwise :
      (cs : List Candidate) (texts : Texts) (usage : Usage)
      → Pairwise
          (Turned now)
          cs
          (fetch_official settings api net period approved now cs texts usage).0
  unfolding fetch_official
  fetch_official-Pairwise [] texts usage = tt
  fetch_official-Pairwise (c ∷ cs) texts usage =
      let turn = fetch_one settings api net period approved now c texts usage in
      (fetch_one-Turned c texts usage, fetch_official-Pairwise cs turn.texts turn.usage)
