-- ===== src/Scholarship/Graph/Paths.antt =====
-- The paths of a run: it ends within twelve nodes, and a run that ends well takes one of four routes.
use edufurther_agent_be.Base.{
  ℕ, zero, suc, ◌+◌, ◌≤◌, ◌≡◌, refl, inl, inr, true, false, Option, some, Bool-cases, arith,
}
use edufurther_agent_be.Errors.{Result, ok, raise}
use edufurther_agent_be.Scholarship.Workflow.{
  State, Node, to_classify_page, to_split_candidates, to_single_candidate, to_decide,
  route_after_fetch, route_after_classification,
}
use edufurther_agent_be.Scholarship.Graph.{
  Services, World, Stage, loading, fetching, classifying, splitting, single, deduping, extracting,
  finding, fetching_official, comparing, reading_eligibility, deciding, submitting, finished,
  is_finished, stage_of, next, perform, go_on, run,
}

-- How many nodes may still run.
abbrev pub rank : Stage → ℕ
rank finished = 0
rank submitting = 1
rank deciding = 2
rank reading_eligibility = 3
rank comparing = 4
rank fetching_official = 5
rank finding = 6
rank extracting = 7
rank deduping = 8
rank splitting = 9
rank single = 9
rank classifying = 10
rank fetching = 11
rank loading = 12

rank-stage_of : (node : Node) → rank (stage_of node) ≤ 10
unfolding stage_of
rank-stage_of to_classify_page = omega arith
rank-stage_of to_split_candidates = omega arith
rank-stage_of to_single_candidate = omega arith
rank-stage_of to_decide = omega arith

route_after_classification_on : (s : State) → rank (stage_of (route_after_classification s)) ≤ 9
unfolding route_after_classification stage_of
route_after_classification_on s = ground arith

rank-next :
    (stage : Stage) (s : State) → is_finished stage ≡ false → rank (next stage s) + 1 ≤ rank stage
unfolding next
rank-next loading s h = omega arith
rank-next fetching s h = omega (arith, rank-stage_of (route_after_fetch s))
rank-next classifying s h = omega (arith, route_after_classification_on s)
rank-next splitting s h = omega arith
rank-next single s h = omega arith
rank-next deduping s h = omega arith
rank-next extracting s h = omega arith
rank-next finding s h = omega arith
rank-next fetching_official s h = omega arith
rank-next comparing s h = omega arith
rank-next reading_eligibility s h = omega arith
rank-next deciding s h = omega arith
rank-next submitting s h = omega arith
rank-next finished s h = cc

module _ (env : Services) where
  abbrev Ended : Option (Result State × World) → Type 0
  Ended r = (e : Result State × World) × (r ≡ some e)

  go_on-Ended :
      (rest : Stage → State → World → Option (Result State × World)) (stage : Stage)
      (t : Result State × World)
      → ((s : State) (w : World) → Ended (rest (next stage s) s w))
      → Ended (go_on env rest stage t)
  unfolding go_on
  go_on-Ended rest stage (raise exc, w) later = ((raise exc, w), refl)
  go_on-Ended rest stage (ok s, w) later = later s w

  -- A run from a stage ends, well or with an exception, within as many nodes as the stage has before it,
  -- whatever the services answer; from the start these are twelve.
  pub run_ends :
      (fuel : ℕ) (stage : Stage) (s : State) (w : World)
      → rank stage ≤ fuel
      → (e : Result State × World) × (run env fuel stage s w ≡ some e)
  unfolding run
  run_ends zero stage s w h = elim (Bool-cases (is_finished stage)) [
    | inl y ↦ ((ok s, w), rw (y, run) refl)
    | inr n ↦ absurd (omega (arith, h, rank-next stage s n))
  ]
  run_ends (suc fuel) stage s w h = elim (Bool-cases (is_finished stage)) [
    | inl y ↦ ((ok s, w), rw (y, run) refl)
    | inr n ↦
        let rest =
          go_on-Ended (run env fuel) stage (perform env stage s w) (λ s' w'.
            run_ends fuel (next stage s') s' w' (omega (arith, h, rank-next stage s' n))) in
        (rest.0, rw (n, run) rest.1)
  ]

  go_on_ok :
      (rest : Stage → State → World → Option (Result State × World)) (stage : Stage)
      (t : Result State × World) (s' : State) (w' : World)
      → go_on env rest stage t ≡ some (ok s', w')
      → (s₁ : State) × (w₁ : World) × (t ≡ (ok s₁, w₁))
        × (rest (next stage s₁) s₁ w₁ ≡ some (ok s', w'))
  unfolding go_on
  go_on_ok rest stage (raise exc, w) s' w' h = cc
  go_on_ok rest stage (ok s, w) s' w' h = (s, w, refl, h)

  -- A run that ends well went through the node of its stage, and on from there.
  pub run_on :
      (fuel : ℕ) (stage : Stage) (s s' : State) (w w' : World)
      → is_finished stage ≡ false
      → run env (suc fuel) stage s w ≡ some (ok s', w')
      → (s₁ : State) × (w₁ : World) × (perform env stage s w ≡ (ok s₁, w₁))
        × (run env fuel (next stage s₁) s₁ w₁ ≡ some (ok s', w'))
  unfolding run
  run_on fuel stage s s' w w' n h =
      go_on_ok (run env fuel) stage (perform env stage s w) s' w' (rw (n, run) at h)

  pub run_out :
      (stage : Stage) (s s' : State) (w w' : World)
      → is_finished stage ≡ false
      → run env 0 stage s w ≡ some (ok s', w')
      → ⊥
  unfolding run
  run_out stage s s' w w' n h = cc (rw (n, run) at h)

  pub run_finished :
      (fuel : ℕ) (stage : Stage) (s : State) (w : World)
      → is_finished stage ≡ true
      → run env fuel stage s w ≡ some (ok s, w)
  unfolding run
  run_finished zero stage s w y = rw (y, run) refl
  run_finished (suc fuel) stage s w y = rw (y, run) refl
