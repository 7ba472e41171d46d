-- ===== src/Settings.antt =====
-- src/app/core/config.py: the settings that the modelled parts read. A timeout or an interval in
-- seconds that the source holds as a `float` is a whole number here.
use edufurther_agent_be.Base.{ℕ, Bool, Option, List, Text}

pub record Settings : Type 0 where
  pub workflow_version : Text
  pub shadow_mode : Bool
  pub job_lease_seconds : ℕ
  pub job_max_attempts : ℕ
  pub job_sweep_batch_limit : ℕ
  pub disabled_tools : List Text
  pub jina_api_key : Option Text
  pub jina_monthly_call_limit : ℕ
  pub jina_timeout_seconds : ℕ
  pub search_result_limit : ℕ
  pub fetch_timeout_seconds : ℕ
  pub fetch_max_bytes : ℕ
  pub tavily_timeout_seconds : ℕ
  pub parsebot_timeout_seconds : ℕ
