-- ===== src/Scholarship/Splitting/Candidates.antt =====
-- The candidates that a list page is split into: how many there can be, and what each is keyed by.
use edufurther_agent_be.Base.{
  ℕ, zero, suc, ◌-◌, ◌≤◌, ◌≡◌, ◌≢◌, refl, sym, ap, ◌∙◌, ◌⊎◌, inl, inr, false, none, some, List, [],
  ◌∷◌, ◌++◌, Text, lit, length, is_empty, ◌==◌, All, Bool-cases, Option-cases, arith,
}
use edufurther_agent_be.Errors.{Result, ok, raise, Result-cases, ok-inj}
use edufurther_agent_be.Json.{Json, null, bool, num, str, arr, obj, Items, nil, cons, Fields}
use edufurther_agent_be.Integrations.{get_value, read_items}
use edufurther_agent_be.Integrations.Router.{RouterResponse, usable_output, router_outcome_value}
use edufurther_agent_be.Scholarship.Schemas.{Candidate}
use edufurther_agent_be.Scholarship.Normalization.{Unicode, normalize_discovery}
use edufurther_agent_be.Scholarship.Workflow.{State, add_note, add_uncertainty}
use edufurther_agent_be.Scholarship.Asking.{Router, is_router_error}
use edufurther_agent_be.Scholarship.Splitting.{
  max_candidates_per_page, items_length, items_take, own_candidate, unsplit, title_of,
  split_candidate, split_items, take_candidates, take_items, take_output, take_split,
  split_candidates,
}

module _ (show : Json → Text) (unicode : Unicode) where
  -- A candidate of a page: keyed by its title, under the page's discovery; it has a discovery of its own
  -- only where it is that discovery, and a title otherwise.
  abbrev pub IsNew : State → Candidate → Type 0
  IsNew s c =
      (c.identity_key ≡ (normalize_discovery unicode c.title none).identity_key)
      × (c.parent_discovery_id ≡ s.discovery.discovery_id)
      × (c.parent_source_url ≡ s.discovery.source_url)
      × ((c.discovery_id ≡ some s.discovery.discovery_id)
          ⊎ ((c.discovery_id ≡ none) × (c.title ≢ [])))

  -- What is claimed of a list of candidates.
  abbrev Bounded : State → List Candidate → Type 0
  Bounded s cs = (length cs ≤ max_candidates_per_page) × All (IsNew s) cs

  own_candidate-IsNew : (s : State) → IsNew s (own_candidate show unicode s)
  unfolding own_candidate
  own_candidate-IsNew s = (refl, refl, refl, inl refl)

  some_title : (title : Text) → is_empty title ≡ false → title ≢ []
  some_title [] h = cc
  some_title (c ∷ title) h = λ e. cc

  split_candidate-IsNew :
      (s : State) (response : RouterResponse) (item : Fields)
      → is_empty (title_of show unicode item) ≡ false
      → IsNew s (split_candidate show unicode s response item)
  unfolding split_candidate
  split_candidate-IsNew s response item h = (refl, refl, refl, inr (refl, some_title _ h))

  split_items-IsNew :
      (s : State) (response : RouterResponse) (items : Items) (cs : List Candidate)
      → split_items show unicode s response items ≡ ok cs
      → (length cs ≤ items_length items) × All (IsNew s) cs
  unfolding split_items
  split_items-IsNew s response nil cs h = rw (sym (ok-inj [] cs h)) (omega arith, tt)
  split_items-IsNew s response (cons (obj item) items) cs h =
      elim (Result-cases (split_items show unicode s response items)) [
        | inl (exc, e) ↦ absurd (ground (arith, e))
        | inr (rest, e) ↦
            let (bounded, known) = split_items-IsNew s response items rest e in
            elim (Bool-cases (is_empty (title_of show unicode item))) [
              | inl y ↦
                  let same = ok-inj rest cs (rw (e, y) at h) in
                  rw (sym same) (omega (arith, bounded), known)
              | inr n ↦
                  let same =
                    ok-inj (split_candidate show unicode s response item ∷ rest) cs
                      (rw (e, n) at h) in
                  rw (sym same)
                    (omega (arith, bounded), (split_candidate-IsNew s response item n, known))
            ]
      ]
  split_items-IsNew s response (cons null items) cs h = cc
  split_items-IsNew s response (cons (bool b) items) cs h = cc
  split_items-IsNew s response (cons (num n) items) cs h = cc
  split_items-IsNew s response (cons (str t) items) cs h = cc
  split_items-IsNew s response (cons (arr xs) items) cs h = cc

  items_length-take : (n : ℕ) (items : Items) → items_length (items_take n items) ≤ n
  items_length-take zero items = omega arith
  items_length-take (suc n) nil = omega arith
  items_length-take (suc n) (cons item items) = omega (arith, items_length-take n items)

  take_candidates-candidates :
      (truncated : ℕ) (cs : List Candidate) (s : State)
      → (take_candidates show unicode truncated cs s).candidates ≡ cs
  unfolding take_candidates add_note add_uncertainty
  take_candidates-candidates truncated [] s = refl
  take_candidates-candidates truncated (c ∷ cs) s = elim (Bool-cases (truncated == 0)) [
    | inl y ↦ rw y refl
    | inr n ↦ rw n refl
  ]

  take_items-Bounded :
      (response : RouterResponse) (items : Items) (s s' : State)
      → take_items show unicode response items s ≡ ok s'
      → Bounded s s'.candidates
  unfolding take_items
  take_items-Bounded response items s s' h =
      elim (Result-cases
        (split_items show unicode s response (items_take max_candidates_per_page items))) [
          | inl (exc, e) ↦ cc (rw (e, take_items) at h)
          | inr (cs, e) ↦
              let (bounded, known) = split_items-IsNew s response _ cs e in
              let same : cs ≡ s'.candidates =
                sym (take_candidates-candidates (items_length items - max_candidates_per_page) cs s)
                ∙ ap (λ t. t.candidates) (ok-inj _ s' (rw (e, take_items) at h)) in
              rw (sym same)
                (omega (arith, bounded, items_length-take max_candidates_per_page items), known)
        ]

  unsplit-Bounded :
      (reason : Text) (s : State) → Bounded s (unsplit show unicode reason s).candidates
  unfolding unsplit add_uncertainty max_candidates_per_page
  unsplit-Bounded reason s = (omega arith, (own_candidate-IsNew s, tt))

  take_output-Bounded :
      (response : RouterResponse) (output : Fields) (s s' : State)
      → take_output show unicode response output s ≡ ok s'
      → Bounded s s'.candidates
  unfolding take_output
  take_output-Bounded response output s s' h =
      elim (Result-cases (read_items (get_value (lit "candidates") output))) [
        | inl (exc, e) ↦ absurd (ground (arith, e))
        | inr (items, e) ↦ take_items-Bounded response items s s' (rw (e, take_output) at h)
      ]

  take_split-Bounded :
      (answer : Result RouterResponse) (s s' : State)
      → take_split show unicode answer s ≡ ok s'
      → Bounded s s'.candidates
  unfolding take_split
  take_split-Bounded (raise exc) s s' h = elim (Bool-cases (is_router_error exc.kind)) [
    | inl y ↦
        rw (sym (ok-inj _ s' (rw (y, take_split) at h)))
          (unsplit-Bounded (lit "list splitting failed: " ++ exc.message) s)
    | inr n ↦ absurd (ground (arith, n))
  ]
  take_split-Bounded (ok response) s s' h = elim (Option-cases (usable_output response)) [
    | inl e ↦ rw (sym (ok-inj _ s' (rw (e, take_split) at h))) (
        unsplit-Bounded
          (lit "list splitting unavailable (" ++ router_outcome_value response.outcome ++ lit ")")
          s)
    | inr (output, e) ↦ take_output-Bounded response output s s' (rw (e, take_split) at h)
  ]

  -- Where a list page is split, at most fifty candidates come out, whatever the router answers. Each is
  -- keyed by its title, under the page's discovery, and it either is that discovery or has a title and
  -- no discovery yet.
  pub split_candidates-IsNew :
      (router : Router) (s s' : State)
      → split_candidates show unicode (ok router) s ≡ ok s'
      → (length s'.candidates ≤ 50) × All (IsNew s) s'.candidates
  unfolding split_candidates max_candidates_per_page
  split_candidates-IsNew router s s' h = take_split-Bounded _ s s' h
