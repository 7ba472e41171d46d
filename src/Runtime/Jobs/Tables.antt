-- ===== src/Runtime/Jobs/Tables.antt =====
-- The tables of src/app/infra/models.py that the job store reads and writes.
use edufurther_agent_be.Base.{ℕ, Option, List, Text}
use edufurther_agent_be.Json.{Fields}
use edufurther_agent_be.Runtime.Retries.{JobState, ErrorClass}

-- `agent_jobs`
pub record AgentJob : Type 0 where
  pub job_id : ℕ  -- a UUID by its integer, which orders it too
  pub product_id : Text
  pub use_case_id : Text
  pub input_reference : Text
  pub correlation_id : Text
  pub idempotency_key : Text
  pub workflow_version : Text
  pub state : JobState
  pub attempts : ℕ
  pub payload : Fields
  pub last_error : Option Text
  pub next_attempt_at : Option ℕ
  pub lease_expires_at : Option ℕ
  pub expires_at : Option ℕ

-- `agent_job_attempts`
pub record AgentJobAttempt : Type 0 where
  pub attempt_id : ℕ
  pub job_id : ℕ
  pub attempt_number : ℕ
  pub finished_at : Option ℕ
  pub outcome_state : Option JobState
  pub error_class : Option ErrorClass
  pub error : Option Text

-- `agent_errors`
pub record AgentError : Type 0 where
  pub job_id : ℕ
  pub attempt_number : Option ℕ
  pub error_class : ErrorClass
  pub message : Text

-- `agent_outputs`: the payload of the workflow's own row
pub record AgentOutput : Type 0 where
  pub job_id : ℕ
  pub node : Text
  pub candidate_key : Text
  pub outcome : Option Text
  pub notes : List Text
  pub uncertainty_reasons : List Text

pub record Db : Type 0 where
  pub jobs : List AgentJob
  pub attempts : List AgentJobAttempt
  pub errors : List AgentError
  pub outputs : List AgentOutput

-- What a submission gives of a job's row.
pub record JobRequest : Type 0 where
  pub product_id : Text
  pub use_case_id : Text
  pub input_reference : Text
  pub correlation_id : Text
  pub idempotency_key : Text
  pub workflow_version : Text
  pub payload : Fields
  pub expires_at : Option ℕ
