-- ===== src/Runtime/TaskState.antt =====
-- src/app/runtime/task_state.py: the state that a workflow carries, and its reducer for notes.
use edufurther_agent_be.Base.{Option, none, List, [], ◌++◌, Text, get_or}
use edufurther_agent_be.Json.{Fields}

unfoldable pub merge_notes : Option (List Text) → Option (List Text) → List Text
merge_notes existing incoming = get_or existing [] ++ get_or incoming []

pub record WorkflowState : Type 0 where
  pub job_id : Text  -- the printed UUID
  pub product_id : Text
  pub use_case_id : Text
  pub input_reference : Text
  pub correlation_id : Text
  pub workflow_version : Text
  pub payload : Fields
  pub notes : List Text
  pub uncertainty_reasons : List Text
  pub outcome : Option Text

unfoldable pub initial_state : Text → Text → Text → Text → Text → Text → Fields → WorkflowState
initial_state job_id product_id use_case_id input_reference correlation_id workflow_version
      payload =
    record {
      job_id = job_id;
      product_id = product_id;
      use_case_id = use_case_id;
      input_reference = input_reference;
      correlation_id = correlation_id;
      workflow_version = workflow_version;
      payload = payload;
      notes = [];
      uncertainty_reasons = [];
      outcome = none;
    }
