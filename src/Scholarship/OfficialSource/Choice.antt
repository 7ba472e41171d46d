-- ===== src/Scholarship/OfficialSource/Choice.antt =====
-- What is known of a result that is chosen, and what a malformed result does.
use edufurther_agent_be.Base.{
  ◌≡◌, refl, sym, ap, ◌∙◌, ◌⊎◌, inl, inr, Bool, true, false, none, some, List, [], ◌∷◌, ◌++◌, Text,
  contains_text, is_empty, any, find_first, arith, Bool-cases, Option-cases, In,
}
use mathlib.Core.Path.{subst}
use edufurther_agent_be.Errors.{ok, raise, Result-cases, ok-inj}
use edufurther_agent_be.Python.Urls.{UrlLib, SplitUrl, urlsplit}
use edufurther_agent_be.Tools.Urls.{is_http}
use edufurther_agent_be.Tools.Retrieval.{SearchResult}
use edufurther_agent_be.Scholarship.Normalization.{Unicode}
use edufurther_agent_be.Scholarship.OfficialSource.{
  Usable, usable_of, host_in, host_labels, may_be_chosen, split_error, usable_results, is_named,
  is_public_body, choose, distinctive_words, pick_official,
}

In-append : {A : Type 0} (x : A) (xs ys : List A) → In x (xs ++ ys) → In x xs ⊎ In x ys
In-append x [] ys m = inr m
In-append x (y ∷ xs) ys (inl e) = inl (inl e)
In-append x (y ∷ xs) ys (inr m) = elim (In-append x xs ys m) [ inl l ↦ inl (inr l) | inr r ↦ inr r ]

find_first-In :
    (p : Usable → Bool) (us : List Usable) (u : Usable)
    → find_first p us ≡ some u
    → In u us × (p u ≡ true)
find_first-In p [] u h = absurd (cc)
find_first-In p (v ∷ us) u h = elim (Bool-cases (p v)) [
  | inl y ↦ ground arith
  | inr n ↦ let (m, t) = find_first-In p us u (ground arith) in (inr m, t)
]

-- What a choice among the usable results has.
abbrev Chosen : List Text → List Usable → List Usable → SearchResult → Type 0
Chosen words before us r =
    (u : Usable) × (v : Usable) × (In u before ⊎ In u us)
    × (u.result ≡ r)
    × In v us
    × (is_named words v ≡ true)
    × ((u ≡ v) ⊎ (is_public_body u.host ≡ true))

choose-Chosen :
    (words : List Text) (before us : List Usable) (r : SearchResult)
    → choose words before us ≡ some r
    → Chosen words before us r
unfolding choose
choose-Chosen words before [] r h = absurd (cc)
choose-Chosen words before (w ∷ us) r h = elim (Bool-cases (is_named words w)) [
  | inl y ↦ elim (Option-cases (find_first (λ v. is_public_body v.host) before)) [
    | inl e ↦ (w, w, inr (inl refl), ground arith, inl refl, y, inl refl)
    | inr (v, e) ↦
        let (m, t) = find_first-In (λ v. is_public_body v.host) before v e in
        (v, w, inl m, ground arith, inl refl, y, inr t)
  ]
  | inr n ↦
      let (u, v, p, q, m, t, d) = choose-Chosen words (before ++ w ∷ []) us r (ground arith) in
      (u, v, moved u p, q, inr m, t, d)
]
  where
    moved : (u : Usable) → In u (before ++ w ∷ []) ⊎ In u us → In u before ⊎ In u (w ∷ us)
    moved u (inr m) = inr (inr m)
    moved u (inl m) = elim (In-append u before (w ∷ []) m) [
      | inl l ↦ inl l
      | inr (inl e) ↦ inr (inl e)
      | inr (inr none_left) ↦ absurd none_left
    ]

module _ (lib : UrlLib) (source_labels excluded : List Text) where
  -- What is known of a usable result.
  abbrev Eligible : List SearchResult → Usable → Type 0
  Eligible results u =
      (parts : SplitUrl) × In u.result results
      × (urlsplit lib u.result.url ≡ some parts)
      × (u ≡ usable_of u.result (host_in parts))
      × (may_be_chosen source_labels excluded parts u ≡ true)

  later :
      (r : SearchResult) (results : List SearchResult) (u : Usable)
      → Eligible results u
      → Eligible (r ∷ results) u
  later r results u (parts, inside, split, shape, fine) = (parts, inr inside, split, shape, fine)

  first_eligible :
      (r : SearchResult) (results : List SearchResult) (parts : SplitUrl)
      → urlsplit lib r.url ≡ some parts
      → may_be_chosen source_labels excluded parts (usable_of r (host_in parts)) ≡ true
      → Eligible (r ∷ results) (usable_of r (host_in parts))
  unfolding usable_of
  first_eligible r results parts e y = (parts, inl refl, e, refl, y)

  usable_results-Eligible :
      (results : List SearchResult) (us : List Usable) (u : Usable)
      → usable_results lib source_labels excluded results ≡ ok us
      → In u us
      → Eligible results u
  unfolding usable_results
  usable_results-Eligible [] us u h m = absurd (subst (In u) (sym (ok-inj [] us h)) m)
  usable_results-Eligible (r ∷ results) us u h m = elim (Option-cases (urlsplit lib r.url)) [
    | inl e ↦ absurd (ground arith)
    | inr (parts, e) ↦ elim (Result-cases (usable_results lib source_labels excluded results)) [
      | inl (exc, f) ↦ absurd (ground arith)
      | inr (rest, f) ↦
          elim (Bool-cases
            (may_be_chosen source_labels excluded parts (usable_of r (host_in parts)))) [
              | inl y ↦
                  let us_eq : us ≡ usable_of r (host_in parts) ∷ rest =
                    ground (arith, ok-inj (usable_of r (host_in parts) ∷ rest) us) in
                  elim (subst (In u) us_eq m) [
                    | inl same ↦
                        subst (Eligible (r ∷ results)) (sym same)
                          (first_eligible r results parts e y)
                    | inr k ↦ later r results u (usable_results-Eligible results rest u f k)
                  ]
              | inr n ↦
                  let us_eq : us ≡ rest = ground (arith, ok-inj rest us) in
                  later r results u
                    (usable_results-Eligible results rest u f (subst (In u) us_eq m))
            ]
    ]
  ]

  usable_results_malformed :
      (results : List SearchResult) (r : SearchResult)
      → In r results
      → urlsplit lib r.url ≡ none
      → usable_results lib source_labels excluded results ≡ raise split_error
  unfolding usable_results
  usable_results_malformed [] r m e = absurd m
  usable_results_malformed (x ∷ results) r (inl i) e =
      let broken : urlsplit lib x.url ≡ none =
        ap (λ (y : SearchResult). urlsplit lib y.url) (sym i) ∙ e in
      ground arith
  usable_results_malformed (x ∷ results) r (inr m) e =
      ground (arith, usable_results_malformed results r m e)

-- A result with the parts of its URL, and the words of the award in its domain.
abbrev pub Names : UrlLib → List Text → SearchResult → Type 0
Names lib words n =
    (parts : SplitUrl) × (urlsplit lib n.url ≡ some parts)
    × (is_named words (usable_of n (host_in parts)) ≡ true)

module _ (lib : UrlLib) (unicode : Unicode) (title : Text) (results : List SearchResult)
    (source_labels excluded : List Text) where
  abbrev words : List Text
  words = distinctive_words unicode title

  -- The conditions of a result, one by one.
  fits :
      (parts : SplitUrl) (r : SearchResult)
      → may_be_chosen source_labels excluded parts (usable_of r (host_in parts)) ≡ true
      → (is_http parts.scheme ≡ true)
        × (contains_text (host_in parts) excluded ≡ false)
        × (any (λ label. contains_text label source_labels) (host_labels (host_in parts)) ≡ false)
  unfolding may_be_chosen usable_of
  fits parts r h = ground arith

  pick_official-choose :
      (r : SearchResult)
      → pick_official lib unicode title results source_labels excluded ≡ ok (some r)
      → (us : List Usable) × (usable_results lib source_labels excluded results ≡ ok us)
        × (choose words [] us ≡ some r)
  unfolding pick_official
  pick_official-choose r h =
      elim (Result-cases (usable_results lib source_labels excluded results)) [
        | inl (exc, e) ↦ absurd (ground arith)
        | inr (us, e) ↦ (us, e, ground (arith, ok-inj (choose words [] us) (some r)))
      ]

  -- What is known of a result that is chosen.
  abbrev pub Picked : SearchResult → Type 0
  Picked r =
      (parts : SplitUrl) × (n : SearchResult) × In r results
      × (urlsplit lib r.url ≡ some parts)
      × (is_http parts.scheme ≡ true)
      × (contains_text (host_in parts) excluded ≡ false)
      × (any (λ label. contains_text label source_labels) (host_labels (host_in parts)) ≡ false)
      × In n results
      × Names lib words n
      × ((r ≡ n) ⊎ (is_public_body (host_in parts) ≡ true))

  -- A result that is chosen is one of those that were found. It is an http or https page whose host is
  -- not excluded and shares no label with the source's, and either its own domain names the award, or
  -- it is a public body and the domain of another result names the award.
  pub pick_official_lem :
      (r : SearchResult)
      → pick_official lib unicode title results source_labels excluded ≡ ok (some r)
      → Picked r
  unfolding usable_of
  pick_official_lem r h =
      let (us, found, chosen) = pick_official-choose r h in
      let (u, v, place, q, m, named, d) = choose-Chosen words [] us r chosen in
      let (parts, inside, split, shape, fine) =
        usable_results-Eligible lib source_labels excluded results us u found
          (elim place [ inl k ↦ absurd k | inr k ↦ k ]) in
      let (parts', inside', split', shape', fine') =
        usable_results-Eligible lib source_labels excluded results us v found m in
      let (http, allowed, apart) =
        fits parts u.result (
          subst (λ (x : Usable). may_be_chosen source_labels excluded parts x ≡ true) shape fine) in
      let names = subst (λ (x : Usable). is_named words x ≡ true) shape' named in
      let public : (u.result ≡ v.result) ⊎ (is_public_body (host_in parts) ≡ true) = elim d [
        | inl e ↦ inl (ap (λ (x : Usable). x.result) e)
        | inr p ↦ inr (subst (λ (x : Usable). is_public_body x.host ≡ true) shape p)
      ] in
      subst Picked q (
        parts,
        v.result,
        inside,
        split,
        http,
        allowed,
        apart,
        inside',
        (parts', split', names),
        public,
      )

  -- A single result whose URL does not split makes the choice raise, whatever else was found, where
  -- the title has a distinctive word.
  pub pick_official_malformed :
      (r : SearchResult)
      → In r results
      → urlsplit lib r.url ≡ none
      → is_empty words ≡ false
      → pick_official lib unicode title results source_labels excluded ≡ raise split_error
  unfolding pick_official
  pick_official_malformed r m e w =
      ground (arith, usable_results_malformed lib source_labels excluded results r m e)
