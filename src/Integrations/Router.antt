-- ===== src/Integrations/Router.antt =====
-- src/app/integrations/ai_router.py: the client of the model router, over HTTP transport and the
-- signature of a token.
use edufurther_agent_be.Base.{
  ℕ, ◌+◌, Bool, ◌&&◌, Option, none, some, List, [], ◌∷◌, ◌++◌, Text, lit, text_eq, leb, get_or,
  show_nat, if◌then◌else◌,
}
use edufurther_agent_be.Errors.{PyError, ai_router_error, Result, ok, raise}
use edufurther_agent_be.Json.{Json, num, str, obj, Fields, end, field, get_field}
use edufurther_agent_be.Tools.JinaClient.{HttpResponse}
use edufurther_agent_be.Scholarship.Schemas.{has_text}
use edufurther_agent_be.Integrations.{
  client_error, problem_code, object_body, get_value, text_of, without_slash,
}

pub data AiTask : Type 0 where
  classify_source_page split_list_candidates extract_scholarship_facts : AiTask
  compare_official_evidence extract_eligibility_requirements : AiTask

unfoldable pub task_value : AiTask → Text
task_value classify_source_page = lit "classify_source_page"
task_value split_list_candidates = lit "split_list_candidates"
task_value extract_scholarship_facts = lit "extract_scholarship_facts"
task_value compare_official_evidence = lit "compare_official_evidence"
task_value extract_eligibility_requirements = lit "extract_eligibility_requirements"

pub data RouterOutcome : Type 0 where
  completed review budget_exhausted provider_unavailable : RouterOutcome

unfoldable pub router_outcome_value : RouterOutcome → Text
router_outcome_value completed = lit "completed"
router_outcome_value review = lit "review"
router_outcome_value budget_exhausted = lit "budget_exhausted"
router_outcome_value provider_unavailable = lit "provider_unavailable"

-- `AIRouterOutcome(value)`, where the value is one of them
unfoldable pub router_outcome : Text → Option RouterOutcome
unfolding router_outcome_value
router_outcome value =
    if text_eq value (router_outcome_value completed)
    then some completed
    else if text_eq value (router_outcome_value review)
    then some review
    else if text_eq value (router_outcome_value budget_exhausted)
    then some budget_exhausted
    else if text_eq value (router_outcome_value provider_unavailable)
    then some provider_unavailable
    else none

pub record RouterRequest : Type 0 where
  pub task : AiTask
  pub feature_id : Text
  pub correlation_id : Text
  pub idempotency_key : Text
  pub source_data : Fields
  pub request_id : Option Text

-- The router answers with an object or `null` as output, and with texts or `null` as versions.
pub record RouterResponse : Type 0 where
  pub request_id : Text
  pub outcome : RouterOutcome
  pub output : Option Fields
  pub model_policy_version : Option Text
  pub prompt_version : Option Text
  pub model : Option Text
  pub trace_reference : Option Text

-- `response.completed and response.output`: the output, where it is an object with some entry
unfoldable pub usable_output : RouterResponse → Option Fields
usable_output response = elim response.outcome [
  | completed ↦ elim response.output [
    | some (field key value fields) ↦ some (field key value fields)
    | _ ↦ none
  ]
  | _ ↦ none
]

pub record RouterClient : Type 0 where
  pub base_url : Text
  pub private_key_pem : Text
  pub key_id : Text
  pub product_id : Text

-- The signature of claims by the key and its id; POST by URL, body and headers; `str`.
pub record RouterHttp : Type 0 where
  pub encode : Text → Text → Fields → Text
  pub post : Text → Json → List (Text × Text) → Result HttpResponse
  pub show : Json → Text

unfoldable pub token_lifetime_seconds : ℕ
token_lifetime_seconds = 120

-- The claims of a token that is signed at `now`, in seconds, with a fresh `jti`.
unfoldable pub token_claims : ℕ → Text → Fields
unfolding token_lifetime_seconds
token_claims now jti = field (lit "iss") (str (lit "edufurther-agent")) (
    field (lit "sub") (str (lit "edufurther-agent-worker")) (
      field (lit "aud") (str (lit "edufurther-ai-router")) (
        field (lit "iat") (num now) (
          field (lit "nbf") (num now) (
            field (lit "exp") (num (now + token_lifetime_seconds))
              (field (lit "jti") (str jti) (field (lit "scope") (str (lit "ai:execute")) end)))))))

unfoldable pub sign_jwt : RouterHttp → RouterClient → ℕ → Text → Text
unfolding token_claims
sign_jwt http client now jti =
    http.encode client.private_key_pem client.key_id (token_claims now jti)

unfoldable pub payload_of : RouterClient → RouterRequest → Json
payload_of client request = obj (
    field (lit "product_id") (str client.product_id) (
      field (lit "feature_id") (str request.feature_id) (
        field (lit "task") (str (task_value request.task)) (
          field (lit "correlation_id") (str request.correlation_id) (
            field (lit "idempotency_key") (str request.idempotency_key)
              (field (lit "source_data") (obj request.source_data) end))))))

-- `request.request_id or request.correlation_id`
unfoldable pub trace_id : RouterRequest → Text
trace_id request =
    if has_text request.request_id then get_or request.request_id [] else request.correlation_id

unfoldable pub headers_of : Text → RouterRequest → List (Text × Text)
unfolding trace_id
headers_of token request =
    (lit "Authorization", lit "Bearer " ++ token)
    ∷ (lit "Idempotency-Key", request.idempotency_key)
    ∷ (lit "X-Request-ID", trace_id request)
    ∷ []

-- A text of the answer, or `None`.
unfoldable pub text_field : Text → Fields → Option Text
unfolding get_value
text_field key body = elim (get_value key body) [ str s ↦ some s | _ ↦ none ]

unfoldable pub object_field : Text → Fields → Option Fields
unfolding get_value
object_field key body = elim (get_value key body) [ obj fields ↦ some fields | _ ↦ none ]

unfoldable pub unusable_status : (Json → Text) → Fields → PyError
unfolding client_error
unusable_status show body =
    client_error ai_router_error (lit "AIRouterError") none
      (lit "ai router returned an unusable status: " ++ show (obj body))

unfoldable pub response_of : (Json → Text) → Fields → RouterOutcome → RouterResponse
unfolding text_field object_field text_of
response_of show body outcome = record {
  request_id = text_of show (get_or (get_field (lit "request_id") body) (str []));
  outcome = outcome;
  output = object_field (lit "output") body;
  model_policy_version = text_field (lit "model_policy_version") body;
  prompt_version = text_field (lit "prompt_version") body;
  model = text_field (lit "model") body;
  trace_reference = text_field (lit "trace_reference") body;
}

-- `AIRouterOutcome(body["status"])`, of a body that is an object
unfoldable pub read_outcome : Fields → Option RouterOutcome
unfolding router_outcome
read_outcome body = elim (get_field (lit "status") body) [
  | some (str value) ↦ router_outcome value
  | _ ↦ none
]

unfoldable pub read_answer : (Json → Text) → Result Fields → Result RouterResponse
unfolding read_outcome unusable_status
read_answer show (raise exc) = raise exc
read_answer show (ok body) = elim (read_outcome body) [
  | none ↦ raise (unusable_status show body)
  | some outcome ↦ ok (response_of show body outcome)
]

unfoldable pub router_failure : (Json → Text) → Text → HttpResponse → PyError
unfolding client_error problem_code
router_failure show task response =
    client_error ai_router_error (lit "AIRouterError") (some response.status_code) (
      lit "ai router returned "
      ++ show_nat response.status_code
      ++ lit " for "
      ++ task
      ++ lit ": "
      ++ problem_code show response.json)

-- What the answer of the router is taken for.
unfoldable pub read_router : (Json → Text) → Text → Result HttpResponse → Result RouterResponse
unfolding read_answer router_failure object_body
read_router show task (raise exc) = raise exc
read_router show task (ok response) =
    if leb 400 response.status_code
    then raise (router_failure show task response)
    else read_answer show
        (object_body ai_router_error (lit "AIRouterError") show (lit "ai router") response.json)

unfoldable pub execute :
    RouterHttp → RouterClient → ℕ → Text → RouterRequest → Result RouterResponse
unfolding sign_jwt payload_of headers_of read_router
execute http client now jti request = read_router http.show (task_value request.task) (
    http.post (client.base_url ++ lit "/api/v1/internal/ai/execute") (payload_of client request)
      (headers_of (sign_jwt http client now jti) request))

-- The settings that name the router, and the key that signs.
pub record RouterSettings : Type 0 where
  pub ai_router_base_url : Option Text
  pub ai_router_private_key_pem : Option Text
  pub ai_router_key_id : Option Text
  pub ai_router_product_id : Text

unfoldable pub ai_router_configured : RouterSettings → Bool
ai_router_configured s =
    has_text s.ai_router_base_url
    && (has_text s.ai_router_private_key_pem && has_text s.ai_router_key_id)

unfoldable pub router_not_configured : PyError
unfolding client_error
router_not_configured =
    client_error ai_router_error (lit "AIRouterNotConfigured") none
      (lit "AI_ROUTER_BASE_URL, AI_ROUTER_PRIVATE_KEY_PEM and AI_ROUTER_KEY_ID are required")

-- `client_from_settings` of this module
unfoldable pub router_client_from_settings : RouterSettings → Result RouterClient
unfolding ai_router_configured router_not_configured
router_client_from_settings s =
    if ai_router_configured s
    then ok (record {
      base_url = without_slash (get_or s.ai_router_base_url []);
      private_key_pem = get_or s.ai_router_private_key_pem [];
      key_id = get_or s.ai_router_key_id [];
      product_id = s.ai_router_product_id;
    })
    else raise router_not_configured
