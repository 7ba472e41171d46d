-- ===== src/Scholarship/Asking.antt =====
-- The model calls of src/app/usecases/scholarship_finder/nodes.py: `_ask`, and what is recorded of an
-- answer. A router is a function of the request; the requests of one run have different keys.
use edufurther_agent_be.Base.{
  ℕ, Bool, true, false, some, ◌++◌, Text, lit, [], get_or, if◌then◌else◌,
}
use edufurther_agent_be.Errors.{ErrorKind, ai_router_error, Result, ok, raise}
use edufurther_agent_be.Json.{Fields}
use edufurther_agent_be.Integrations.Router.{
  AiTask, RouterRequest, RouterResponse, RouterHttp, RouterSettings, router_client_from_settings,
  execute,
}
use edufurther_agent_be.Scholarship.Schemas.{Candidate, has_text, set_text}
use edufurther_agent_be.Scholarship.Workflow.{State}

abbrev pub Router : Type 0
Router = RouterRequest → Result RouterResponse

-- The router of the settings, for tokens signed at `now`, each request with an id of its own.
unfoldable pub router_from_settings :
    RouterHttp → RouterSettings → ℕ → (RouterRequest → Text) → Result Router
router_from_settings http settings now jti = elim (router_client_from_settings settings) [
  | raise exc ↦ raise exc
  | ok client ↦ ok (λ request. execute http client now (jti request) request)
]

-- What `except AIRouterError` catches.
abbrev pub is_router_error : ErrorKind → Bool
is_router_error ai_router_error = true
is_router_error _ = false

unfoldable pub request_for : AiTask → State → Text → Fields → RouterRequest
request_for task s key source_data = record {
  task = task;
  feature_id = lit "scholarship_verification";
  correlation_id = s.correlation_id;
  idempotency_key = s.job_id ++ (lit ":" ++ key);
  source_data = source_data;
  request_id = some (s.correlation_id ++ (lit ":" ++ key));
}

unfoldable pub ask : Router → AiTask → State → Text → Fields → Result RouterResponse
unfolding request_for
ask router task s key source_data = router (request_for task s key source_data)

unfoldable pub note_provenance : Text → RouterResponse → Candidate → Candidate
note_provenance task response c = record c {
  prompt_versions = set_text task (get_or response.prompt_version []) c.prompt_versions;
  models =
      if has_text response.model
      then set_text task (get_or response.model []) c.models
      else c.models;
}

-- `_page_provenance`, merged into the state
unfoldable pub page_provenance : RouterResponse → State → State
page_provenance response s = record s {
  page_prompt_version =
      if has_text response.prompt_version then response.prompt_version else s.page_prompt_version;
  page_model = if has_text response.model then response.model else s.page_model;
}
