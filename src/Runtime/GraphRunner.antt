-- ===== src/Runtime/GraphRunner.antt =====
-- src/app/runtime/graph_runner.py: one job from its claim to the transition that ends the attempt.
-- The compiled graph and the checkpointer are third-party code: `Engine` is what the runner asks of
-- them. `interim` is whatever other sessions commit while the graph runs: the heartbeat's renewals,
-- a sweep that reclaims the job, another worker. The sessions themselves are taken to succeed, but
-- for the unique constraint of the attempt row.
pub mod Outcome
pub mod Interference
use edufurther_agent_be.Base.{
  ℕ, ◌/◌, max, Bool, true, false, ◌&&◌, Option, none, some, List, [], ◌∷◌, ◌++◌, map, Text, lit,
  text_eq, contains_text, any, ◌==◌, if◌then◌else◌,
}
use edufurther_agent_be.Core.Identifiers.{uuid_text}
use edufurther_agent_be.Errors.{
  PyError, ErrorKind, unknown_use_case, timeout_error, Result, ok, raise,
}
use edufurther_agent_be.Json.{Fields}
use edufurther_agent_be.Settings.{Settings}
use edufurther_agent_be.Runtime.Retries.{
  JobState, completed, cancelled, ErrorClass, retryable, permanent, classify_error, fail, succeed,
  JobTransition,
}
use edufurther_agent_be.Runtime.TaskState.{WorkflowState, initial_state}
use edufurther_agent_be.Runtime.Jobs.{
  AgentJob, AgentOutput, Db, get_job, claim_job, start_attempt, finish_attempt, apply_transition,
  record_error,
}

-- `max(lease_seconds // _HEARTBEAT_DIVISOR, _MIN_HEARTBEAT_SECONDS)`
unfoldable pub heartbeat_interval : ℕ → ℕ
heartbeat_interval lease_seconds = max (lease_seconds / 3) 5

-- The keys of the graph's final state that the runner reads.
pub record RunResult : Type 0 where
  pub outcome : Option Text
  pub notes : Option (List Text)
  pub uncertainty_reasons : Option (List Text)

-- `ainvoke` of a use case's compiled graph on its input, where no input resumes the thread of the
-- job; it raises what a node raises, and `TimeoutError` past the ceiling.
pub record Engine : Type 0 where
  pub known_use_cases : List Text
  pub has_checkpoint : ℕ → Bool
  pub ainvoke : Text → ℕ → Option WorkflowState → Result RunResult

unfoldable pub unknown_use_case_error : Text → PyError
unknown_use_case_error use_case_id = record {
  kind = unknown_use_case;
  type_name = lit "UnknownUseCase";
  status_code = none;
  message = lit "no workflow registered for " ++ use_case_id;
}

-- The job as the claiming session read it.
pub record Snapshot : Type 0 where
  pub product_id : Text
  pub use_case_id : Text
  pub input_reference : Text
  pub correlation_id : Text
  pub workflow_version : Text
  pub payload : Fields
  pub attempt_number : ℕ

unfoldable pub snapshot_of : AgentJob → Snapshot
snapshot_of job = record {
  product_id = job.product_id;
  use_case_id = job.use_case_id;
  input_reference = job.input_reference;
  correlation_id = job.correlation_id;
  workflow_version = job.workflow_version;
  payload = job.payload;
  attempt_number = job.attempts;
}

-- `_run_graph`
unfoldable pub run_graph : Engine → ℕ → Snapshot → Result RunResult
unfolding unknown_use_case_error
run_graph e job_id s =
    let state =
      initial_state (uuid_text job_id) s.product_id s.use_case_id s.input_reference s.correlation_id
        s.workflow_version s.payload in
    let graph_input : Option WorkflowState = if e.has_checkpoint job_id then none else some state in
    if contains_text s.use_case_id e.known_use_cases
    then e.ainvoke s.use_case_id job_id graph_input
    else raise (unknown_use_case_error s.use_case_id)

abbrev or_empty : Option (List Text) → List Text
or_empty none = []
or_empty (some xs) = xs

abbrev is_output : AgentOutput → AgentOutput → Bool
is_output a b =
    a.job_id == b.job_id && (text_eq a.node b.node && text_eq a.candidate_key b.candidate_key)

-- `_record_output`: an upsert on `uq_agent_outputs_job_node_key`
unfoldable pub record_output : ℕ → RunResult → Db → Db
record_output job_id result db =
    let row : AgentOutput = record {
      job_id = job_id;
      node = lit "workflow";
      candidate_key = [];
      outcome = result.outcome;
      notes = or_empty result.notes;
      uncertainty_reasons = or_empty result.uncertainty_reasons;
    } in
    if any (is_output row) db.outputs
    then record db { outputs = map (λ old. if is_output row old then row else old) db.outputs }
    else record db { outputs = db.outputs ++ row ∷ [] }

-- `_classify`
unfoldable pub classify_by_kind : ErrorKind → ErrorClass → ErrorClass
classify_by_kind unknown_use_case c = permanent
classify_by_kind timeout_error c = retryable
classify_by_kind _ c = c

unfoldable pub classify : PyError → ErrorClass
unfolding classify_by_kind
classify exc = classify_by_kind exc.kind (classify_error exc)

-- `f"{type(exc).__name__}: {exc}"`
unfoldable pub message_of : PyError → Text
message_of exc = exc.type_name ++ lit ": " ++ exc.message

unfoldable pub failure_of : Settings → ℕ → PyError → ℕ → JobTransition
failure_of settings attempt_number exc now =
    fail attempt_number (message_of exc) (classify exc) settings.job_max_attempts now

-- `_record_failure`
unfoldable pub record_failure : Settings → ℕ → ℕ → ℕ → PyError → ℕ → Db → JobState × Db
unfolding failure_of
record_failure settings job_id attempt_id attempt_number exc now db =
    let error_class = classify exc in
    let message = message_of exc in
    let transition = failure_of settings attempt_number exc now in
    let moved = apply_transition job_id transition db in
    let noted = record_error job_id error_class message attempt_number moved in
    (
      transition.state,
      finish_attempt attempt_id transition.state (some error_class) (some message) now noted,
    )

-- The sessions after the graph has returned or raised.
unfoldable pub settle : Settings → ℕ → ℕ → ℕ → Result RunResult → ℕ → Db → JobState × Db
unfolding record_failure
settle settings job_id attempt_id attempt_number (raise exc) now db =
    record_failure settings job_id attempt_id attempt_number exc now db
settle settings job_id attempt_id attempt_number (ok result) now db =
    let stored = record_output job_id result db in
    let moved = apply_transition job_id (succeed attempt_number) stored in
    (completed, finish_attempt attempt_id completed none none now moved)

-- The moments and the keys that one execution takes from the outside, and what others do meanwhile.
pub record Occasion : Type 0 where
  pub attempt_id : ℕ
  pub claimed_at : ℕ
  pub ended_at : ℕ
  pub interim : Db → Db

-- `job_not_claimable`: the state that the row has, or `cancelled` where there is none
unfoldable pub state_of : Option AgentJob → JobState
state_of none = cancelled
state_of (some job) = job.state

-- The run and what follows it, once the claim and the attempt row are committed.
unfoldable pub run_claimed : Settings → Engine → Occasion → ℕ → AgentJob → Db → JobState × Db
unfolding settle snapshot_of
run_claimed settings engine o job_id job db =
    settle settings job_id o.attempt_id job.attempts (run_graph engine job_id (snapshot_of job))
      o.ended_at (o.interim db)

-- A refused attempt row rolls the claim back and propagates.
unfoldable pub execute_job : Settings → Engine → Occasion → ℕ → Db → Result JobState × Db
unfolding run_claimed state_of
execute_job settings engine o job_id db =
    let (claimed, claimed_db) = claim_job job_id settings.job_lease_seconds o.claimed_at db in
    elim claimed [
      | none ↦ (ok (state_of (get_job job_id db)), db)
      | some job ↦ elim (start_attempt o.attempt_id job claimed_db) [
        | raise exc ↦ (raise exc, db)
        | ok started ↦
            let (state, final) = run_claimed settings engine o job_id job started in
            (ok state, final)
      ]
    ]
