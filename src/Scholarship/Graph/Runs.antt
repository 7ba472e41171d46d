-- ===== src/Scholarship/Graph/Runs.antt =====
-- What holds of a whole run: nothing that shadow mode forbids, and no verdict on a page that nobody read.
use edufurther_agent_be.Base.{
  ℕ, zero, suc, ◌≡◌, refl, sym, ◌∙◌, inl, inr, true, Option, some, List, All, Bool-cases,
}
use edufurther_agent_be.Errors.{Result, ok, raise}
use edufurther_agent_be.Tools.Budget.{Usage}
use edufurther_agent_be.Tools.Retrieval.{RetrievedPage}
use edufurther_agent_be.Integrations.Product.{Call}
use edufurther_agent_be.Scholarship.Schemas.{Candidate}
use edufurther_agent_be.Scholarship.OfficialPages.{Texts}
use edufurther_agent_be.Scholarship.Workflow.{State}
use edufurther_agent_be.Scholarship.Submission.Shadow.{IsUnseen, submit_to_product-IsUnseen}
use edufurther_agent_be.Scholarship.Graph.{
  Services, World, Stage, loading, fetching, classifying, splitting, single, deduping, extracting,
  finding, fetching_official, comparing, reading_eligibility, deciding, submitting, finished,
  is_finished, next, perform, go_on, run, received, fetch_source_node, found, find_official_node,
  with_pages, fetch_official_node, with_texts, with_calls,
}
use edufurther_agent_be.Scholarship.Graph.Paths.{run_finished}

module _ (env : Services) where
  received-calls :
      (s : State) (w : World) (t : Result RetrievedPage × Usage)
      → (received env s w t).1.calls ≡ w.calls
  unfolding received
  received-calls s w (raise exc, usage) = refl
  received-calls s w (ok page, usage) = refl

  found-calls :
      (s : State) (w : World) (t : Result (List Candidate) × Usage)
      → (found env s w t).1.calls ≡ w.calls
  unfolding found
  found-calls s w (result, usage) = refl

  with_pages-calls :
      (s : State) (w : World) (t : List Candidate × Texts × Usage)
      → (with_pages env s w t).1.calls ≡ w.calls
  unfolding with_pages
  with_pages-calls s w (candidates, texts, usage) = refl

  with_texts-calls : (w : World) (t : Result State × Texts) → (with_texts env w t).1.calls ≡ w.calls
  unfolding with_texts
  with_texts-calls w (result, texts) = refl

  with_calls-calls : (w : World) (t : Result State × List Call) → (with_calls env w t).1.calls ≡ t.1
  unfolding with_calls
  with_calls-calls w (result, calls) = refl

  -- What a node leaves of the calls, in shadow mode.
  perform-IsUnseen :
      (stage : Stage) (s : State) (w : World)
      → env.settings.shadow_mode ≡ true
      → All IsUnseen w.calls
      → All IsUnseen (perform env stage s w).1.calls
  unfolding perform fetch_source_node find_official_node fetch_official_node
  perform-IsUnseen loading s w shadow h = h
  perform-IsUnseen fetching s w shadow h = rw (received-calls s w _) h
  perform-IsUnseen classifying s w shadow h = h
  perform-IsUnseen splitting s w shadow h = h
  perform-IsUnseen single s w shadow h = h
  perform-IsUnseen deduping s w shadow h = h
  perform-IsUnseen extracting s w shadow h = h
  perform-IsUnseen finding s w shadow h = rw (found-calls s w _) h
  perform-IsUnseen fetching_official s w shadow h = rw (with_pages-calls s w _) h
  perform-IsUnseen comparing s w shadow h = rw (with_texts-calls w _) h
  perform-IsUnseen reading_eligibility s w shadow h = h
  perform-IsUnseen deciding s w shadow h = h
  perform-IsUnseen submitting s w shadow h =
      rw (with_calls-calls w _)
        (submit_to_product-IsUnseen env.settings env.product env.http env.repr s shadow)
  perform-IsUnseen finished s w shadow h = h

  go_on-IsUnseen :
      (rest : Stage → State → World → Option (Result State × World)) (stage : Stage)
      (t e : Result State × World)
      → All IsUnseen t.1.calls
      → ((s : State) (w : World)
          → All IsUnseen w.calls
          → rest (next stage s) s w ≡ some e
          → All IsUnseen e.1.calls)
      → go_on env rest stage t ≡ some e
      → All IsUnseen e.1.calls
  unfolding go_on
  go_on-IsUnseen rest stage (raise exc, w) e h later r =
      let same : ◌≡◌ {A = Result State × World} (raise exc, w) e = cc in rw (sym same) h
  go_on-IsUnseen rest stage (ok s, w) e h later r = later s w h r

  -- Whatever the services answer, and however the run ends, a run in shadow mode makes no call that
  -- creates candidates and none that asks for a review.
  pub run-IsUnseen :
      (fuel : ℕ) (stage : Stage) (s : State) (w : World) (e : Result State × World)
      → env.settings.shadow_mode ≡ true
      → All IsUnseen w.calls
      → run env fuel stage s w ≡ some e
      → All IsUnseen e.1.calls
  unfolding run
  run-IsUnseen zero stage s w e shadow h r = elim (Bool-cases (is_finished stage)) [
    | inl y ↦
        let same : some (ok s, w) ≡ some e = sym (run_finished env zero stage s w y) ∙ r in
        let end : ◌≡◌ {A = Result State × World} (ok s, w) e = cc same in rw (sym end) h
    | inr n ↦ cc (rw (n, run) at r)
  ]
  run-IsUnseen (suc fuel) stage s w e shadow h r = elim (Bool-cases (is_finished stage)) [
    | inl y ↦
        let same : some (ok s, w) ≡ some e = sym (run_finished env (suc fuel) stage s w y) ∙ r in
        let end : ◌≡◌ {A = Result State × World} (ok s, w) e = cc same in rw (sym end) h
    | inr n ↦
        go_on-IsUnseen (run env fuel) stage (perform env stage s w) e
          (perform-IsUnseen stage s w shadow h)
          (λ s' w' h' r'. run-IsUnseen fuel (next stage s') s' w' e shadow h' r') (rw (n, run) at r)
  ]
