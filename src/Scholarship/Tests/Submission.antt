-- ===== src/Scholarship/Tests/Submission.antt =====
-- The theorems of the submission at concrete inputs.
use edufurther_agent_be.Base.{◌≡◌, refl, true, false, none, some, [], ◌∷◌, ◌++◌, Text, rstrip_by}
use edufurther_agent_be.Errors.{PyError, http_error, ok, raise}
use edufurther_agent_be.Json.{obj, end, get_field, truthy}
use edufurther_agent_be.Settings.{Settings}
use edufurther_agent_be.Tools.JinaClient.{HttpResponse}
use edufurther_agent_be.Integrations.Product.{
  ProductHttp, ProductSettings, Client, client_from_settings, post_call,
}
use edufurther_agent_be.Scholarship.Schemas.{review_required}
use edufurther_agent_be.Scholarship.Workflow.{State}
use edufurther_agent_be.Scholarship.Submission.{
  submit_to_product, submit_all, submit_candidates, submit_run, submit_each, submit_one,
  submit_known, attach, record_candidate_run, review_if, request_review, record_job_run, submitted,
}
use edufurther_agent_be.Scholarship.Submission.Plan.{submission_plan}
use edufurther_agent_be.Scholarship.Submission.Whole.{submit_to_product-submission_plan}
use edufurther_agent_be.Scholarship.Submission.Failures.{
  submit_to_product_recorded, submit_to_product_raises,
}
use edufurther_agent_be.Scholarship.Tests.{candidate}
use edufurther_agent_be.Scholarship.Tests.Decisions.{state}

abbrev pub shadow_settings : Settings
shadow_settings = record {
  workflow_version = b'1' ∷ [];
  shadow_mode = true;
  job_lease_seconds = 300;
  job_max_attempts = 5;
  job_sweep_batch_limit = 5;
  disabled_tools = [];
  jina_api_key = none;
  jina_monthly_call_limit = 0;
  jina_timeout_seconds = 30;
  search_result_limit = 5;
  fetch_timeout_seconds = 20;
  fetch_max_bytes = 1000;
  tavily_timeout_seconds = 15;
  parsebot_timeout_seconds = 15;
}

abbrev open_settings : Settings
open_settings = record shadow_settings { shadow_mode = false }

abbrev pub product : ProductSettings
product = record {
  scholarship_finder_base_url = some (b'u' ∷ []);
  scholarship_finder_agent_token = some (b't' ∷ []);
}

abbrev client : Client
client = record { base_url = b'u' ∷ []; token = b't' ∷ [] }

configured : client_from_settings product ≡ ok client
unfolding client_from_settings rstrip_by
configured = refl

-- A product that answers every call with the empty object.
abbrev answer : HttpResponse
answer = record { status_code = 200; text = []; json = some (obj end) }

abbrev pub http : ProductHttp
http = record {
  get = λ url token params. ok answer;
  post = λ calls url token body. ok answer;
  show = λ value. [];
}

-- A transport that is down.
abbrev pub timeout : PyError
timeout = record { kind = http_error; type_name = []; status_code = none; message = [] }

abbrev down : ProductHttp
down = record http { post = λ calls url token body. raise timeout }

abbrev pub repr : Text → Text
repr s = b'\'' ∷ s ++ b'\'' ∷ []

-- A job with a candidate that has its discovery and asks for a review.
abbrev reviewed : State
reviewed = record state {
  candidates =
      record candidate { discovery_id = some (b'c' ∷ []); outcome = some review_required } ∷ [];
}

ends : (submit_to_product open_settings product http repr reviewed).0 ≡ ok reviewed
unfolding submit_to_product submit_all submit_candidates submit_run submit_each submit_one
    submit_known attach record_candidate_run review_if request_review record_job_run post_call
    get_field client_from_settings submitted truthy
ends = refl

submit_to_product-submission_plan_example :
    (submit_to_product open_settings product http repr reviewed).1
    ≡ submission_plan http client repr reviewed false reviewed.candidates
submit_to_product-submission_plan_example =
    submit_to_product-submission_plan open_settings product http repr reviewed reviewed client
      configured ends

submit_to_product_recorded_example :
    ((submit_to_product shadow_settings product http repr reviewed).1
      ≡ submission_plan http client repr reviewed true reviewed.candidates)
    × (final : State) × ((submit_to_product shadow_settings product http repr reviewed).0
        ≡ ok final)
    × (final.candidates ≡ reviewed.candidates)
submit_to_product_recorded_example =
    submit_to_product_recorded shadow_settings product http repr reviewed client refl configured
      (λ calls url token body. (answer, obj end, refl, refl))

submit_to_product_raises_example :
    (submit_to_product open_settings product down repr reviewed).0 ≡ raise timeout
submit_to_product_raises_example =
    submit_to_product_raises open_settings product down repr reviewed client timeout configured refl
      (λ calls url token body. refl)
