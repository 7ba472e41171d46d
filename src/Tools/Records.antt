-- ===== src/Tools/Records.antt =====
-- src/app/tools/base.py: the record of a tool call, and how an exception classifies it.
use edufurther_agent_be.Base.{
  ℕ, ◌≡◌, refl, ◌↔◌, Bool, true, false, Option, none, some, List, [], ◌∷◌, ◌++◌, Text, lit, take,
  if◌then◌else◌, arith,
}
use edufurther_agent_be.Errors.{
  PyError, ErrorKind, value_error, tool_disabled, tool_budget_exhausted, tool_policy_refusal,
  Result, ok, raise,
}

pub data ToolStatus : Type 0 where
  ok_status error_status disabled budget_exhausted refused : ToolStatus

pub record ToolCallRecord : Type 0 where
  pub tool : Text
  pub target : Option Text
  pub status : ToolStatus
  pub error : Option Text

unfoldable pub new_record : Text → Option Text → ToolCallRecord
new_record tool target = record { tool = tool; target = target; status = ok_status; error = none }

-- The exceptions by which the guard refuses a target.
abbrev pub is_refusal : ErrorKind → Bool
is_refusal tool_policy_refusal = true
is_refusal value_error = true
is_refusal _ = false

-- The `except` clauses of `observe`, in their order.
unfoldable pub status_of_kind : ErrorKind → ToolStatus
status_of_kind tool_disabled = disabled
status_of_kind tool_budget_exhausted = budget_exhausted
status_of_kind tool_policy_refusal = refused
status_of_kind value_error = refused
status_of_kind _ = error_status

unfoldable pub error_text : PyError → ToolStatus → Text
error_text exc error_status = exc.type_name ++ lit ": " ++ exc.message
error_text exc _ = exc.message

unfoldable pub mark_failed : PyError → ToolCallRecord → ToolCallRecord
unfolding status_of_kind error_text
mark_failed exc r =
    let status = status_of_kind exc.kind in
    record r { status = status; error = some (error_text exc status) }

-- `observe`: the body's record, marked where the body raised; the result passes through unchanged.
unfoldable pub observe {ℓ} : {A : Type ℓ} → Result A × ToolCallRecord → Result A × ToolCallRecord
unfolding mark_failed
observe (ok a, r) = (ok a, r)
observe (raise exc, r) = (raise exc, mark_failed exc r)

-- A row of `agent_tool_calls`.
pub record AgentToolCall : Type 0 where
  pub job_id : ℕ
  pub tool : Text
  pub target : Option Text
  pub status : ToolStatus
  pub error : Option Text

abbrev cut : Option Text → Option Text
cut none = none
cut (some s) = some (take 2000 s)

unfoldable pub persist_tool_call : ℕ → ToolCallRecord → List AgentToolCall → List AgentToolCall
persist_tool_call job_id r rows =
    rows
    ++ record {
      job_id = job_id;
      tool = r.tool;
      target = r.target;
      status = r.status;
      error = cut r.error;
    }
      ∷ []

-- `recorded`: `persisted` tells whether the write of the row succeeds; a failed one is swallowed.
unfoldable pub recorded {ℓ} :
    {A : Type ℓ}
    → Option ℕ
    → Bool
    → Result A × ToolCallRecord
    → List AgentToolCall
    → Result A × List AgentToolCall
unfolding observe persist_tool_call
recorded none persisted body rows = ((observe body).0, rows)
recorded (some job_id) persisted body rows =
    let (result, r) = observe body in
    (result, if persisted then persist_tool_call job_id r rows else rows)

-- Telemetry never changes what a tool call gives: neither the classification of its end nor a failed
-- write of its row.
pub recorded_transparent {ℓ} :
    {A : Type ℓ} (job_id : Option ℕ) (persisted : Bool) (body : Result A × ToolCallRecord)
    (rows : List AgentToolCall)
    → (recorded job_id persisted body rows).0 ≡ body.0
unfolding recorded
recorded_transparent none persisted (ok a, r) rows = refl
recorded_transparent none persisted (raise exc, r) rows = refl
recorded_transparent (some id) persisted (ok a, r) rows = refl
recorded_transparent (some id) persisted (raise exc, r) rows = refl

-- A call is recorded as refused exactly when the guard said no: by a policy refusal or a `ValueError`.
pub mark_failed_refused :
    (exc : PyError) (r : ToolCallRecord)
    → ((mark_failed exc r).status ≡ refused) ↔ ((is_refusal exc.kind) ≡ true)
unfolding mark_failed
mark_failed_refused exc r = ground arith
