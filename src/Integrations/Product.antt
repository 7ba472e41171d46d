-- ===== src/Integrations/Product.antt =====
-- src/app/integrations/scholarship_finder.py: the client of the product's agent API. A call is a
-- value, which names the method and its arguments; path and body are made of it.
use edufurther_agent_be.Base.{
  ℕ, Bool, ◌&&◌, Option, none, some, List, [], ◌++◌, Text, lit, is_empty, ◌==◌, get_or,
  if◌then◌else◌,
}
use edufurther_agent_be.Errors.{PyError, scholarship_finder_error, Result, ok, raise}
use edufurther_agent_be.Json.{Json, null, bool, num, str, arr, obj, Items, Fields, end, field}
use edufurther_agent_be.Tools.JinaClient.{HttpResponse}
use edufurther_agent_be.Scholarship.Schemas.{has_text}
use edufurther_agent_be.Integrations.{client_error, json_object, without_slash}

pub record ProductSettings : Type 0 where
  pub scholarship_finder_base_url : Option Text
  pub scholarship_finder_agent_token : Option Text

pub record Client : Type 0 where
  pub base_url : Text
  pub token : Text

-- The calls that write, with their arguments.
pub data Call : Type 0 where
  -- parent_discovery_id, workflow_version, candidates
  candidates_call : Text → Text → Items → Call
  -- discovery_id, workflow_run_id, workflow_version, prompt_version, model, evidence
  evidence_call : Text → Text → Text → Option Text → Option Text → Items → Call
  -- discovery_id, reason, priority
  review_call : Text → Text → Option ℕ → Call
  -- discovery_id, workflow_version, agent_outcome, recommendation, prompt_version, model,
  -- correlation_id
  run_call : Text → Text → Text → Json → Option Text → Option Text → Text → Call

-- HTTP as the client uses it, by URL, token and parameters or body. What the product answers to a
-- write may depend on the writes before it. `show` is `str` of a value that is no string.
pub record ProductHttp : Type 0 where
  pub get : Text → Text → Fields → Result HttpResponse
  pub post : List Call → Text → Text → Json → Result HttpResponse
  pub show : Json → Text

unfoldable pub agent_base : Text
agent_base = lit "/api/v1/internal/agent"

-- A text, or `None`.
unfoldable pub optional : Option Text → Json
optional none = null
optional (some s) = str s

unfoldable pub call_path : Call → Text
unfolding agent_base
call_path (candidates_call parent version candidates) = agent_base ++ lit "/candidates"
call_path (evidence_call discovery run version prompt model evidence) =
    agent_base ++ lit "/candidates/" ++ discovery ++ lit "/evidence"
call_path (review_call discovery reason priority) =
    agent_base ++ lit "/candidates/" ++ discovery ++ lit "/review"
call_path (run_call discovery version outcome recommendation prompt model correlation) =
    agent_base ++ lit "/runs"

unfoldable pub priority_field : Option ℕ → Fields
priority_field none = end
priority_field (some n) = field (lit "priority") (num n) end

unfoldable pub call_body : Call → Json
unfolding optional priority_field
call_body (candidates_call parent version candidates) = obj (
    field (lit "parent_discovery_id") (str parent) (
      field (lit "workflow_version") (str version) (field (lit "candidates") (arr candidates) end)))
call_body (evidence_call discovery run version prompt model evidence) = obj (
    field (lit "workflow_run_id") (str run) (
      field (lit "workflow_version") (str version) (
        field (lit "prompt_version") (optional prompt)
          (field (lit "model") (optional model) (field (lit "evidence") (arr evidence) end)))))
call_body (review_call discovery reason priority) =
    obj (field (lit "reason") (str reason) (priority_field priority))
call_body (run_call discovery version outcome recommendation prompt model correlation) = obj (
    field (lit "discovery_id") (str discovery) (
      field (lit "workflow_version") (str version) (
        field (lit "agent_outcome") (str outcome) (
          field (lit "recommendation") recommendation (
            field (lit "prompt_version") (optional prompt) (
              field (lit "model") (optional model)
                (field (lit "correlation_id") (str correlation) end)))))))

unfoldable pub call_name : Call → Text
call_name (candidates_call _ _ _) = lit "submit_candidates"
call_name (evidence_call _ _ _ _ _ _) = lit "attach_evidence"
call_name (review_call _ _ _) = lit "request_review"
call_name (run_call _ _ _ _ _ _ _) = lit "record_run"

unfoldable pub not_found : Text → PyError
unfolding client_error
not_found message = client_error scholarship_finder_error (lit "DiscoveryNotFound") none message

-- What a response is taken for, after the test for 404.
unfoldable pub read_response : (Json → Text) → Text → Text → Result HttpResponse → Result Fields
unfolding not_found json_object
read_response show missing what (raise exc) = raise exc
read_response show missing what (ok response) =
    if response.status_code == 404
    then raise (not_found missing)
    else json_object scholarship_finder_error (lit "ScholarshipFinderError") show what response

-- `_post`, with the path and the body of the method that calls it
unfoldable pub post_call : ProductHttp → Client → List Call → Call → Result Fields
unfolding call_path call_body call_name read_response
post_call http client before call =
    read_response http.show (call_name call ++ lit ": the product has no such discovery")
      (call_name call)
      (http.post before (client.base_url ++ call_path call) client.token (call_body call))

unfoldable pub get_discovery : ProductHttp → Client → Text → Result Fields
unfolding read_response agent_base
get_discovery http client discovery_id =
    read_response http.show (lit "no such discovery: " ++ discovery_id)
      (lit "get_discovery(" ++ discovery_id ++ lit ")")
      (http.get (client.base_url ++ agent_base ++ lit "/discoveries/" ++ discovery_id) client.token
        end)

-- `params[key] = value` where the text is given and is not empty
unfoldable pub text_param : Text → Option Text → Fields → Fields
text_param key none params = params
text_param key (some s) params = if is_empty s then params else field key (str s) params

unfoldable pub list_params : ℕ → Option Text → Option Text → Bool → Fields
unfolding text_param
list_params limit after workflow_version unprocessed_only = field (lit "limit") (num limit) (
    field (lit "unprocessed_only") (bool unprocessed_only)
      (text_param (lit "after") after (text_param (lit "workflow_version") workflow_version end)))

-- A 404 is no missing discovery here.
unfoldable pub read_list : (Json → Text) → Result HttpResponse → Result Fields
unfolding json_object
read_list show (raise exc) = raise exc
read_list show (ok response) =
    json_object scholarship_finder_error (lit "ScholarshipFinderError") show
      (lit "list_discoveries") response

unfoldable pub list_discoveries :
    ProductHttp → Client → ℕ → Option Text → Option Text → Bool → Result Fields
unfolding list_params read_list agent_base
list_discoveries http client limit after workflow_version unprocessed_only = read_list http.show (
    http.get (client.base_url ++ agent_base ++ lit "/discoveries") client.token
      (list_params limit after workflow_version unprocessed_only))

unfoldable pub not_configured : PyError
unfolding client_error
not_configured =
    client_error scholarship_finder_error (lit "ScholarshipFinderNotConfigured") none
      (lit "SCHOLARSHIP_FINDER_BASE_URL and SCHOLARSHIP_FINDER_AGENT_TOKEN are required")

unfoldable pub is_configured : ProductSettings → Bool
is_configured s =
    has_text s.scholarship_finder_base_url && has_text s.scholarship_finder_agent_token

unfoldable pub client_from_settings : ProductSettings → Result Client
unfolding not_configured is_configured without_slash
client_from_settings s =
    if is_configured s
    then ok (record {
      base_url = without_slash (get_or s.scholarship_finder_base_url []);
      token = get_or s.scholarship_finder_agent_token [];
    })
    else raise not_configured
