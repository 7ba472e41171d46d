-- ===== src/Lib.antt =====
-- The agent service, a runtime for verification workflows: src/app of the repository.
--
-- The parts and how they interact
--   A submission becomes a row of `agent_jobs` (src/app/infra/jobs.py). A sweeper (runtime/sweeper.py)
--   reclaims rows whose lease is over and runs what is due through `execute_job`
--   (runtime/graph_runner.py), which claims the row by the arithmetic of runtime/retries.py, inserts an
--   attempt row, runs the graph of the job's use case and settles the job. The scholarship workflow
--   (usecases/scholarship_finder) reads a discovery of the product and its page through the tools
--   (src/app/tools), asks the model router to classify, to split and to extract, compares what a
--   candidate states with its official page, recommends an outcome and submits the run to the product
--   (src/app/integrations).
--
-- Which file models which part
--   Base, Errors, Json, Settings: texts as lists of code points, the exceptions that the code tells
--     apart, JSON values, the settings that are read (src/app/core/config.py).
--   Core/Identifiers: src/app/core/identifiers.py.
--   Python/Urls, Python/Regex: urllib.parse as far as it is used, and regular expressions with
--     backtracking.
--   Integrations, Integrations/Product, Integrations/Router: the clients of
--     src/app/integrations/scholarship_finder.py and ai_router.py there.
--   Runtime/Retries, Runtime/TaskState, Runtime/GraphRunner, Runtime/Sweeper: src/app/runtime/retries.py,
--     task_state.py, graph_runner.py and sweeper.py. Runtime/Jobs: src/app/infra/jobs.py over the tables
--     of src/app/infra/models.py (Jobs/Tables); a session's statement is a function on the tables, `Db`.
--     Jobs/Rows, Keys, Due, Claims and Leases are about the statements, GraphRunner/Outcome and
--     GraphRunner/Interference about an execution, with whatever other sessions do meanwhile. Jobs/Moves
--     has the lifecycle of a row as a relation, and Jobs/Sequences the sequences of statements.
--   Tools/Records, Tools/Budget, Tools/Registry, Tools/Urls, Tools/DirectFetch, Tools/Throttle:
--     src/app/tools/base.py, budget.py, registry.py, urls.py, direct_fetch.py and throttle.py. A turn
--     of the throttle takes time only and is left out of a fetch. Tools/Retrieval: src/app/tools/retrieval.py
--     and search.py, over a reader and a search, `Jina`; Tools/JinaClient makes these of the calls in
--     src/app/tools/jina.py.
--   Scholarship/Schemas, FactMatching, Policies, Normalization, OfficialSource, Extraction, Prompts,
--     Submission, Graph: schemas.py, fact_matching.py, policies.py, normalization.py,
--     official_source.py, extraction.py, prompts.py, submission.py and graph.py of
--     src/app/usecases/scholarship_finder. Scholarship/Payloads has the JSON of the records of schemas.py
--     and of what submission.py recommends.
--     From nodes.py there: Scholarship/Asking has `_ask` and what is noted of an answer, Loading
--     `load_discovery` and `classify_page`, Splitting `single_candidate` and `split_candidates`, Reading
--     `extract_facts` and `extract_eligibility`, Sources `find_official_source`, OfficialPages
--     `fetch_official`, Compare `_compare_sets`, `_settle_agreement` and their helpers, Evidence
--     `compare_evidence`, and Workflow `fetch_source` from the page on, `dedupe_candidates` and `decide`,
--     with the routes of graph.py. Graph has the nodes as stages over the state and a `World` of usage
--     rows, page texts and calls.
--   Api/Jobs: `submit_job` and `read_job` of src/app/api/jobs.py.
--   Scripts/Batch: scripts/batch.py; what it prints is a report.
--   Tests in each tree: test data, runs, and the theorems at concrete inputs.
--
-- How code is rendered
--   A coroutine is a function; what happens between its sessions is an argument
--   (`Occasion.interim`). A call that may raise gives a `Result`. A time is a number of
--   microseconds, and `now` is an argument. A `FOR UPDATE` row lock makes a read and its write one
--   step; `SKIP LOCKED` reads the rows that others hold from a function `locked`. A UUID is its
--   integer, which orders it as the database does. Every loop runs over a list or a text. On fuel
--   run the digits of a number, with the number itself, which is more than it has digits, and the
--   nodes of a run, which has at most twelve of them.
--   A write to the product is a value, `Call`, and a submission passes on the calls made so far, on which
--   the product's answers may depend. An exception out of the graph ends the run; the checkpoints between
--   nodes belong to LangGraph, and a run may start at any stage.
--
-- Parameters, and what is assumed of them
--   `Engine` is the compiled graph with its checkpointer; `Network` is name resolution, the
--   registries of `ipaddress`, HTTP transport and `urljoin`; `Transport` is HTTP as the Jina client
--   uses it, with `str` of a JSON value; `UrlLib` is percent coding and the checks of a network
--   location; `Unicode` is NFKD with the combining marks and the case mappings; SHA-256 is a
--   function. `ProductHttp` and `RouterHttp` are HTTP as the two clients use it, with the signature
--   of a token, and a `Router` gives an answer as a function of the request, since the requests of
--   a run have different keys; `show` and `repr` are Python's `str` and `repr`. Nothing is assumed
--   of them but where a theorem says so: a digest has 64 characters. A database session is taken to
--   succeed but for the unique key of an attempt, whose failure is modelled.
--   Digits and letters in amounts, dates and ports are the ASCII ones, and lower case is the ASCII one.
--   An answer of the model router has the shape of its task.
--
-- What is not modelled
--   Health and metrics (src/app/api/health.py, src/app/infra/metrics.py), which only report; the check
--   of the service token and the rendering of problems (src/app/core); checkpoint storage, database
--   engine and event loop, which are glue over libraries; the registry of use cases and
--   the probe; migrations, and the operator scripts but the batch.
pub mod Base
pub mod Errors
pub mod Json
pub mod Settings
pub mod Core
pub mod Python
pub mod Runtime
pub mod Tools
pub mod Scholarship
pub mod Integrations
pub mod Api
pub mod Scripts
