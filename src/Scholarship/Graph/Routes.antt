-- ===== src/Scholarship/Graph/Routes.antt =====
-- The routes of a run that ends well, as the text above graph.py draws them.
use edufurther_agent_be.Base.{
  ℕ, zero, suc, ◌≡◌, refl, ap, ◌∙◌, ◌⊎◌, inl, inr, true, false, some, List, [], ◌∷◌, Bool-cases,
  arith,
}
use edufurther_agent_be.Errors.{Result, ok, raise}
use edufurther_agent_be.Scholarship.Workflow.{
  State, Node, to_classify_page, to_split_candidates, to_single_candidate, to_decide,
  route_after_fetch, route_after_classification,
}
use edufurther_agent_be.Scholarship.Graph.{
  Services, World, Stage, loading, fetching, classifying, splitting, single, deduping, extracting,
  finding, fetching_official, comparing, reading_eligibility, deciding, submitting, finished,
  is_finished, stage_of, next, perform, run,
}
use edufurther_agent_be.Scholarship.Policies.{is_false}
use edufurther_agent_be.Scholarship.Graph.Paths.{run_on, run_out}

-- From the decision on, and from the removal of duplicates on.
abbrev pub last_stages : List Stage
last_stages = deciding ∷ submitting ∷ []

abbrev pub candidate_stages : List Stage
candidate_stages =
    deduping ∷ extracting ∷ finding ∷ fetching_official ∷ comparing ∷ reading_eligibility
    ∷ last_stages

module _ (env : Services) where
  -- The nodes that a run goes through, in their order.
  abbrev visit : (Stage → State → World → List Stage) → Stage → Result State × World → List Stage
  visit rest stage (raise exc, w) = []
  visit rest stage (ok s, w) = rest (next stage s) s w

  unfoldable pub visited : ℕ → Stage → State → World → List Stage
  visited zero stage s w = []
  visited (suc fuel) stage s w = elim (is_finished stage) [
    | true ↦ []
    | false ↦ stage ∷ visit (visited fuel) stage (perform env stage s w)
  ]

  -- Every run from the stage that ends well goes through these nodes.
  record Takes (stage : Stage) (route : List Stage) : Type 0 where
    taken :
        (fuel : ℕ) (s s' : State) (w w' : World)
        → run env fuel stage s w ≡ some (ok s', w')
        → visited fuel stage s w ≡ route

  visited_on :
      (fuel : ℕ) (stage : Stage) (s s₁ : State) (w w₁ : World)
      → is_finished stage ≡ false
      → perform env stage s w ≡ (ok s₁, w₁)
      → visited (suc fuel) stage s w ≡ stage ∷ visited fuel (next stage s₁) s₁ w₁
  unfolding visited
  visited_on fuel stage s s₁ w w₁ n e = rw (n, visited) (rw e refl)

  visited_finished : (fuel : ℕ) (s : State) (w : World) → visited fuel finished s w ≡ []
  unfolding visited
  visited_finished zero s w = refl
  visited_finished (suc fuel) s w = refl

  finished-Takes : Takes finished []
  finished-Takes = record { taken = λ fuel s s' w w' h. visited_finished fuel s w }

  taken_next :
      (stage after : Stage) (route : List Stage)
      → is_finished stage ≡ false
      → ((s : State) → next stage s ≡ after)
      → Takes after route
      → (fuel : ℕ) (s s' : State) (w w' : World) → run env fuel stage s w ≡ some (ok s', w')
      → visited fuel stage s w ≡ stage ∷ route
  taken_next stage after route n edge rest zero s s' w w' h =
      absurd (run_out env stage s s' w w' n h)
  taken_next stage after route n edge rest (suc fuel) s s' w w' h =
      let (s₁, w₁, e, f) = run_on env fuel stage s s' w w' n h in
      visited_on fuel stage s s₁ w w₁ n e
      ∙ ap (λ t. stage ∷ t)
          (ap (λ t. visited fuel t s₁ w₁) (edge s₁)
            ∙ rest.taken fuel s₁ s' w₁ w' (rw (edge s₁) at f))

  next-Takes :
      (stage after : Stage) (route : List Stage)
      → is_finished stage ≡ false
      → ((s : State) → next stage s ≡ after)
      → Takes after route
      → Takes stage (stage ∷ route)
  next-Takes stage after route n edge rest = record {
    taken = taken_next stage after route n edge rest;
  }

  deciding-Takes : Takes deciding last_stages
  unfolding next
  deciding-Takes =
      next-Takes deciding submitting _ refl (λ s. refl)
        (next-Takes submitting finished _ refl (λ s. refl) finished-Takes)

  deduping-Takes : Takes deduping candidate_stages
  unfolding next
  deduping-Takes =
      next-Takes deduping extracting _ refl (λ s. refl)
        (next-Takes extracting finding _ refl (λ s. refl)
          (next-Takes finding fetching_official _ refl (λ s. refl)
            (next-Takes fetching_official comparing _ refl (λ s. refl)
              (next-Takes comparing reading_eligibility _ refl (λ s. refl)
                (next-Takes reading_eligibility deciding _ refl (λ s. refl) deciding-Takes)))))

  splitting-Takes : Takes splitting (splitting ∷ candidate_stages)
  unfolding next
  splitting-Takes = next-Takes splitting deduping _ refl (λ s. refl) deduping-Takes

  single-Takes : Takes single (single ∷ candidate_stages)
  unfolding next
  single-Takes = next-Takes single deduping _ refl (λ s. refl) deduping-Takes

  -- What a run can go through behind the fetch of the source page.
  abbrev Behind : List Stage → Type 0
  Behind path =
      (path ≡ last_stages)
      ⊎ (path ≡ classifying ∷ last_stages)
      ⊎ (path ≡ classifying ∷ splitting ∷ candidate_stages)
      ⊎ (path ≡ classifying ∷ single ∷ candidate_stages)

  abbrev Classed : List Stage → Type 0
  Classed path =
      (path ≡ last_stages)
      ⊎ (path ≡ splitting ∷ candidate_stages)
      ⊎ (path ≡ single ∷ candidate_stages)

  -- A route leads to the decision, to one of the two ways to candidates, or to the classification.
  by_route :
      (node : Node) (fuel : ℕ) (s s' : State) (w w' : World)
      → run env fuel (stage_of node) s w ≡ some (ok s', w')
      → Classed (visited fuel (stage_of node) s w) ⊎ (node ≡ to_classify_page)
  unfolding stage_of
  by_route to_decide fuel s s' w w' h = inl (inl (deciding-Takes.taken fuel s s' w w' h))
  by_route to_split_candidates fuel s s' w w' h =
      inl (inr (inl (splitting-Takes.taken fuel s s' w w' h)))
  by_route to_single_candidate fuel s s' w w' h =
      inl (inr (inr (single-Takes.taken fuel s s' w w' h)))
  by_route to_classify_page fuel s s' w w' h = inr refl

  route_after_fetch-cases :
      (s : State) → (route_after_fetch s ≡ to_decide) ⊎ (route_after_fetch s ≡ to_classify_page)
  unfolding route_after_fetch
  route_after_fetch-cases s = elim (Bool-cases (is_false s.page_usable)) [
    | inl y ↦ inl (rw y refl)
    | inr n ↦ inr (rw n refl)
  ]

  route_after_classification_away :
      (s : State) → route_after_classification s ≡ to_classify_page → ⊥
  unfolding route_after_classification
  route_after_classification_away s h = ground arith

  classifying-Behind :
      (fuel : ℕ) (s s' : State) (w w' : World)
      → run env fuel classifying s w ≡ some (ok s', w')
      → Behind (visited fuel classifying s w)
  unfolding next
  classifying-Behind zero s s' w w' h = absurd (run_out env classifying s s' w w' refl h)
  classifying-Behind (suc fuel) s s' w w' h =
      let (s₁, w₁, e, f) = run_on env fuel classifying s s' w w' refl h in
      rw (visited_on fuel classifying s s₁ w w₁ refl e)
        (elim (by_route (route_after_classification s₁) fuel s₁ s' w₁ w' f) [
          | inl (inl p) ↦ inr (inl (ap (λ t. classifying ∷ t) p))
          | inl (inr (inl p)) ↦ inr (inr (inl (ap (λ t. classifying ∷ t) p)))
          | inl (inr (inr p)) ↦ inr (inr (inr (ap (λ t. classifying ∷ t) p)))
          | inr q ↦ absurd (route_after_classification_away s₁ q)
        ])

  fetching-Behind :
      (fuel : ℕ) (s s' : State) (w w' : World)
      → run env fuel fetching s w ≡ some (ok s', w')
      → (path : List Stage) × (visited fuel fetching s w ≡ fetching ∷ path) × Behind path
  unfolding next stage_of
  fetching-Behind zero s s' w w' h = absurd (run_out env fetching s s' w w' refl h)
  fetching-Behind (suc fuel) s s' w w' h =
      let (s₁, w₁, e, f) = run_on env fuel fetching s s' w w' refl h in
      elim (route_after_fetch-cases s₁) [
        | inl d ↦ (
          last_stages,
          visited_on fuel fetching s s₁ w w₁ refl e
              ∙ ap (λ t. fetching ∷ visited fuel (stage_of t) s₁ w₁) d
              ∙ ap (λ t. fetching ∷ t) (deciding-Takes.taken fuel s₁ s' w₁ w' (rw d at f)),
          inl refl,
        )
        | inr c ↦ (
          visited fuel classifying s₁ w₁,
          visited_on fuel fetching s s₁ w w₁ refl e
              ∙ ap (λ t. fetching ∷ visited fuel (stage_of t) s₁ w₁) c,
          classifying-Behind fuel s₁ s' w₁ w' (rw c at f),
        )
      ]

  -- A run that ends well goes through one of four sequences of nodes: the discovery is loaded and its
  -- page is fetched; then it is decided at once, or the page is classified first, and either it is decided
  -- then or the candidates are made, by splitting or as a single one, and taken through the six nodes that
  -- gather evidence; in each the decision comes once, and the submission once, as the last node.
  pub run_routes :
      (fuel : ℕ) (s s' : State) (w w' : World)
      → run env fuel loading s w ≡ some (ok s', w')
      → (path : List Stage) × (visited fuel loading s w ≡ loading ∷ fetching ∷ path)
        × ((path ≡ last_stages)
            ⊎ (path ≡ classifying ∷ last_stages)
            ⊎ (path ≡ classifying ∷ splitting ∷ candidate_stages)
            ⊎ (path ≡ classifying ∷ single ∷ candidate_stages))
  unfolding next
  run_routes zero s s' w w' h = absurd (run_out env loading s s' w w' refl h)
  run_routes (suc fuel) s s' w w' h =
      let (s₁, w₁, e, f) = run_on env fuel loading s s' w w' refl h in
      let (path, g, behind) = fetching-Behind fuel s₁ s' w₁ w' f in
      (path, visited_on fuel loading s s₁ w w₁ refl e ∙ ap (λ t. loading ∷ t) g, behind)
