-- ===== src/Api/Jobs.antt =====
-- src/app/api/jobs.py: the submission of a job and the reading of one. A body has passed its schema in
-- src/app/api/schemas.py; the service token is checked in front of the routes.
pub mod Submission
use edufurther_agent_be.Base.{
  ℕ, ◌+◌, ◌*◌, Bool, true, false, not, Option, none, some, List, [], Text, lit, contains_text,
  is_empty, if◌then◌else◌,
}
use edufurther_agent_be.Core.Identifiers.{job_idempotency_key}
use edufurther_agent_be.Json.{Fields}
use edufurther_agent_be.Settings.{Settings}
use edufurther_agent_be.Runtime.Retries.{JobState, seconds}
use edufurther_agent_be.Runtime.Jobs.{AgentJob, Db, JobRequest, enqueue_job, get_job}

pub record JobSubmission : Type 0 where
  pub product_id : Text
  pub use_case_id : Text
  pub input_reference : Text
  pub correlation_id : Option Text
  pub workflow_version : Option Text
  pub payload : Fields

pub record JobAccepted : Type 0 where
  pub job_id : ℕ
  pub state : JobState
  pub created : Bool
  pub correlation_id : Text
  pub workflow_version : Text

-- The answers, by the code of a problem; `vanished` is the `RuntimeError` of `enqueue_job`.
pub data Answer : Type 0 where
  accepted : JobAccepted → Answer
  unknown_use_case_answer vanished : Answer

abbrev pub retention_days : ℕ
retention_days = 90

-- What a request takes from the outside: a new key for the row, a new correlation id, and the time.
pub record Arrival : Type 0 where
  pub job_id : ℕ
  pub correlation_id : Text
  pub now : ℕ

-- `given or default`
abbrev pub text_or : Option Text → Text → Text
text_or none default = default
text_or (some given) default = if is_empty given then default else given

module _ (settings : Settings) (sha256_hex : Text → Text) (known_use_cases : List Text) where
  abbrev pub version_of : JobSubmission → Text
  version_of body = text_or body.workflow_version settings.workflow_version

  unfoldable pub key_of : JobSubmission → Text
  key_of body =
      job_idempotency_key sha256_hex body.use_case_id (version_of body) body.input_reference

  unfoldable pub request_of : Arrival → JobSubmission → JobRequest
  unfolding key_of
  request_of a body = record {
    product_id = body.product_id;
    use_case_id = body.use_case_id;
    input_reference = body.input_reference;
    correlation_id = text_or body.correlation_id a.correlation_id;
    idempotency_key = key_of body;
    workflow_version = version_of body;
    payload = body.payload;
    expires_at = some (a.now + seconds (retention_days * 86400));
  }

  -- The answer, the tables, and the job that is started in the background, if one is.
  unfoldable pub submit_job : Arrival → JobSubmission → Db → Answer × Db × Option ℕ
  unfolding request_of
  submit_job a body db =
      if not (contains_text body.use_case_id known_use_cases)
      then (unknown_use_case_answer, db, none)
      else let (result, db') = enqueue_job a.job_id (request_of a body) db in
        elim result [
          | none ↦ (vanished, db', none)
          | some (job, created) ↦ (
            accepted (record {
              job_id = job.job_id;
              state = job.state;
              created = created;
              correlation_id = text_or body.correlation_id a.correlation_id;
              workflow_version = version_of body;
            }),
            db',
            if created then some job.job_id else none,
          )
        ]

-- `read_job`: the row whose columns are answered; without one the answer is a 404.
unfoldable pub read_job : ℕ → Db → Option AgentJob
read_job id db = get_job id db
