-- ===== src/Scholarship/Graph.antt =====
-- `build` of src/app/usecases/scholarship_finder/graph.py: the nodes as stages, and the edges between
-- them. A run is a path of stages; what the nodes share besides the state is a `World`.
pub mod Paths
pub mod Routes
pub mod Runs
pub mod Unreadable
use edufurther_agent_be.Base.{ℕ, zero, suc, Bool, true, false, Option, none, some, List, Text}
use edufurther_agent_be.Errors.{PyError, Result, ok, raise}
use edufurther_agent_be.Settings.{Settings}
use edufurther_agent_be.Python.Urls.{UrlLib}
use edufurther_agent_be.Tools.Budget.{Usage}
use edufurther_agent_be.Tools.DirectFetch.{Network}
use edufurther_agent_be.Tools.Retrieval.{Jina, RetrievedPage, fetch_page}
use edufurther_agent_be.Integrations.Product.{ProductHttp, ProductSettings, Call}
use edufurther_agent_be.Scholarship.Schemas.{Candidate}
use edufurther_agent_be.Scholarship.Normalization.{Unicode}
use edufurther_agent_be.Scholarship.Workflow.{
  State, Node, to_classify_page, to_split_candidates, to_single_candidate, to_decide, receive_page,
  route_after_fetch, route_after_classification, dedupe_candidates, decide,
}
use edufurther_agent_be.Scholarship.Sources.{find_official_source}
use edufurther_agent_be.Scholarship.OfficialPages.{Texts, fetch_official}
use edufurther_agent_be.Scholarship.Asking.{Router}
use edufurther_agent_be.Scholarship.Loading.{load_discovery, classify_page}
use edufurther_agent_be.Scholarship.Splitting.{single_candidate, split_candidates}
use edufurther_agent_be.Scholarship.Reading.{extract_facts, extract_eligibility, with_candidates}
use edufurther_agent_be.Scholarship.Evidence.{compare_evidence}
use edufurther_agent_be.Scholarship.Submission.{submit_to_product}

-- What a run depends on outside the program.
pub record Services : Type 0 where
  pub settings : Settings
  pub product : ProductSettings
  pub http : ProductHttp
  pub router : Result Router
  pub api : Jina
  pub net : Network
  pub lib : UrlLib
  pub unicode : Unicode
  pub period : Text
  pub now : Text
  pub repr : Text → Text

-- What the nodes share: the texts of official pages, the budget, and the calls that the product got.
pub record World : Type 0 where
  pub texts : Texts
  pub usage : Usage
  pub calls : List Call

pub data Stage : Type 0 where
  loading fetching classifying splitting single deduping extracting finding : Stage
  fetching_official comparing reading_eligibility deciding submitting finished : Stage

-- The node that a route names.
unfoldable pub stage_of : Node → Stage
stage_of to_classify_page = classifying
stage_of to_split_candidates = splitting
stage_of to_single_candidate = single
stage_of to_decide = deciding

-- The edges.
unfoldable pub next : Stage → State → Stage
next loading s = fetching
next fetching s = stage_of (route_after_fetch s)
next classifying s = stage_of (route_after_classification s)
next splitting s = deduping
next single s = deduping
next deduping s = extracting
next extracting s = finding
next finding s = fetching_official
next fetching_official s = comparing
next comparing s = reading_eligibility
next reading_eligibility s = deciding
next deciding s = submitting
next submitting s = finished
next finished s = finished

abbrev pub is_finished : Stage → Bool
is_finished finished = true
is_finished _ = false

module _ (env : Services) where
  -- `fetch_source`, with the page that is fetched
  unfoldable pub received : State → World → Result RetrievedPage × Usage → Result State × World
  received s w (raise exc, usage) = (raise exc, record w { usage = usage })
  received s w (ok page, usage) = (ok (receive_page page s), record w { usage = usage })

  unfoldable pub fetch_source_node : State → World → Result State × World
  fetch_source_node s w = received s w (
      fetch_page env.settings env.api env.net env.period s.approved_domains s.discovery.source_url
        w.usage)

  unfoldable pub found : State → World → Result (List Candidate) × Usage → Result State × World
  found s w (result, usage) = (with_candidates s result, record w { usage = usage })

  unfoldable pub find_official_node : State → World → Result State × World
  find_official_node s w = found s w (
      find_official_source env.lib env.unicode env.settings env.api env.net env.period s.discovery
        s.candidates w.usage)

  unfoldable pub with_pages : State → World → List Candidate × Texts × Usage → Result State × World
  with_pages s w (candidates, texts, usage) =
      (ok (record s { candidates = candidates }), record w { texts = texts; usage = usage })

  unfoldable pub fetch_official_node : State → World → Result State × World
  fetch_official_node s w = with_pages s w (
      fetch_official env.settings env.api env.net env.period s.approved_domains env.now s.candidates
        w.texts w.usage)

  unfoldable pub with_texts : World → Result State × Texts → Result State × World
  with_texts w (result, texts) = (result, record w { texts = texts })

  unfoldable pub with_calls : World → Result State × List Call → Result State × World
  with_calls w (result, calls) = (result, record w { calls = calls })

  -- What a stage's node makes of state and world.
  unfoldable pub perform : Stage → State → World → Result State × World
  perform loading s w = (load_discovery env.http.show env.http env.product s, w)
  perform fetching s w = fetch_source_node s w
  perform classifying s w = (classify_page env.http.show env.repr env.router s, w)
  perform splitting s w = (split_candidates env.http.show env.unicode env.router s, w)
  perform single s w = (ok (single_candidate env.http.show env.unicode s), w)
  perform deduping s w = (ok (dedupe_candidates s), w)
  perform extracting s w = (extract_facts env.router s, w)
  perform finding s w = find_official_node s w
  perform fetching_official s w = fetch_official_node s w
  perform comparing s w = with_texts w (compare_evidence env.http.show env.now env.router s w.texts)
  perform reading_eligibility s w = (extract_eligibility env.http.show env.now env.router s, w)
  perform deciding s w = (ok (decide s), w)
  perform submitting s w =
      with_calls w (submit_to_product env.settings env.product env.http env.repr s)
  perform finished s w = (ok s, w)

  -- What follows a node: an exception ends the run, and any other update leads along an edge.
  unfoldable pub go_on :
      (Stage → State → World → Option (Result State × World))
      → Stage
      → Result State × World
      → Option (Result State × World)
  go_on rest stage (raise exc, w) = some (raise exc, w)
  go_on rest stage (ok s, w) = rest (next stage s) s w

  -- A run on fuel, from a stage on.
  unfoldable pub run : ℕ → Stage → State → World → Option (Result State × World)
  run zero stage s w = elim (is_finished stage) [ true ↦ some (ok s, w) | false ↦ none ]
  run (suc fuel) stage s w = elim (is_finished stage) [
    | true ↦ some (ok s, w)
    | false ↦ go_on (run fuel) stage (perform stage s w)
  ]
