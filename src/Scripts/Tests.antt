-- ===== src/Scripts/Tests.antt =====
-- A batch at concrete inputs: a page with one discovery twice.
use edufurther_agent_be.Base.{
  ℕ, ◌≡◌, refl, true, false, none, some, [], ◌∷◌, Text, lit, rstrip_by, text_eq,
}
use edufurther_agent_be.Errors.{ok}
use edufurther_agent_be.Json.{Json, str, arr, obj, Items, nil, cons, end, field, get_field, truthy}
use edufurther_agent_be.Settings.{Settings}
use edufurther_agent_be.Core.Identifiers.{job_idempotency_key}
use edufurther_agent_be.Runtime.Jobs.{Db, enqueue_job, find_key}
use edufurther_agent_be.Tools.JinaClient.{HttpResponse}
use edufurther_agent_be.Integrations.{get_value, read_items, json_object, text_of, or_value}
use edufurther_agent_be.Integrations.Product.{
  ProductHttp, ProductSettings, client_from_settings, list_discoveries, read_list,
}
use edufurther_agent_be.Scripts.Batch.{
  Draw, would_submit, submission, list_items, run_page, main, process, submit_items, submit_item,
  enqueue_read, enqueue_item, read_item, item_request, go_on, counted, committed, key_for,
  would_lines, would_line,
}
use edufurther_agent_be.Scripts.Batch.Twice.{run_page_twice}

abbrev settings : Settings
settings = record {
  workflow_version = b'1' ∷ [];
  shadow_mode = true;
  job_lease_seconds = 300;
  job_max_attempts = 5;
  job_sweep_batch_limit = 5;
  disabled_tools = [];
  jina_api_key = none;
  jina_monthly_call_limit = 0;
  jina_timeout_seconds = 30;
  search_result_limit = 5;
  fetch_timeout_seconds = 20;
  fetch_max_bytes = 1000;
  tavily_timeout_seconds = 15;
  parsebot_timeout_seconds = 15;
}

abbrev product : ProductSettings
product = record {
  scholarship_finder_base_url = some (b'u' ∷ []);
  scholarship_finder_agent_token = some (b't' ∷ []);
}

abbrev item : Json
item = obj (field (lit "discovery_id") (str (b'd' ∷ [])) end)

abbrev items : Items
items = cons item (cons item nil)

abbrev answer : HttpResponse
answer = record {
  status_code = 200;
  text = [];
  json = some (obj (field (lit "items") (arr items) end));
}

abbrev http : ProductHttp
http = record {
  get = λ url token params. ok answer;
  post = λ calls url token body. ok answer;
  show = λ value. [];
}

abbrev digest : Text → Text
digest key = key

abbrev draws : ℕ → Draw
draws n = record { job_id = n; correlation_id = [] }

abbrev empty : Db
empty = record { jobs = []; attempts = []; errors = []; outputs = [] }

abbrev later : ℕ → Draw
later n = record { job_id = 7; correlation_id = [] }

abbrev stored : Db
stored =
    (enqueue_job 0
      (item_request (λ value. []) settings digest (draws 0) (b'd' ∷ [])
        (get_value (lit "source_url") end))
      empty).1

first_run :
    run_page http product settings digest draws 20 false empty
    ≡ (ok (submission (record { submitted = 1; existing = 1 })), stored)
unfolding run_page list_items client_from_settings list_discoveries read_list json_object get_value
    get_field text_eq lit rstrip_by read_items process submit_items submit_item enqueue_read
    enqueue_item read_item item_request go_on counted committed key_for enqueue_job find_key
    job_idempotency_key text_of
first_run = refl

run_page_twice_example :
    run_page http product settings digest later 20 false stored
    ≡ (ok (submission (record { submitted = 0; existing = 2 })), stored)
run_page_twice_example =
    run_page_twice http product settings digest draws later 20 empty stored
      (record { submitted = 1; existing = 1 }) first_run

-- A dry run, and a limit out of its bounds.
dry_run :
    process http.show settings digest true draws items empty
    ≡ (ok (would_submit ((lit "d  (untitled)") ∷ lit "d  (untitled)" ∷ [])), empty)
unfolding process would_lines would_line get_field get_value text_eq lit text_of or_value truthy
dry_run = refl

out_of_bounds : main http product settings digest draws 201 false empty ≡ none
unfolding main
out_of_bounds = refl
