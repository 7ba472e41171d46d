-- ===== src/Scripts/Batch.antt =====
-- scripts/batch.py: a page of the product's discoveries becomes jobs. What is printed is the report;
-- `draws` gives what each item takes from the outside.
pub mod Kept
pub mod Twice
use edufurther_agent_be.Base.{
  ℕ, ◌+◌, Bool, true, false, ◌&&◌, Option, none, some, List, [], ◌∷◌, ◌++◌, Text, lit, leb,
  if◌then◌else◌,
}
use edufurther_agent_be.Errors.{PyError, runtime_error, Result, ok, raise}
use edufurther_agent_be.Json.{Json, str, obj, Items, nil, cons, Fields, end, field, get_field}
use edufurther_agent_be.Settings.{Settings}
use edufurther_agent_be.Core.Identifiers.{job_idempotency_key}
use edufurther_agent_be.Runtime.Jobs.{AgentJob, Db, JobRequest, enqueue_job}
use edufurther_agent_be.Tools.JinaClient.{shape_failure}
use edufurther_agent_be.Integrations.{text_of, get_value, or_value, read_items, client_error}
use edufurther_agent_be.Integrations.Product.{
  ProductHttp, ProductSettings, client_from_settings, list_discoveries,
}
use edufurther_agent_be.Scholarship.Loading.{key_failure}

-- The id of the row and the correlation id, both made afresh.
pub record Draw : Type 0 where
  pub job_id : ℕ
  pub correlation_id : Text

pub record Counts : Type 0 where
  pub submitted : ℕ
  pub existing : ℕ

pub data Report : Type 0 where
  nothing_to_process : Report
  would_submit : List Text → Report
  submission : Counts → Report

abbrev pub use_case_id : Text
use_case_id = lit "scholarship_verification"

-- The `RuntimeError` of a job that vanished.
unfoldable pub vanished_error : Text → PyError
unfolding client_error
vanished_error key =
    client_error runtime_error (lit "RuntimeError") none (lit "job vanished after enqueue: " ++ key)

unfoldable pub counted : Bool → Counts → Counts
counted true c = record c { submitted = c.submitted + 1 }
counted false c = record c { existing = c.existing + 1 }

-- What is left of one item's session; without a row nothing is committed.
unfoldable pub committed : Text → Db → Option (AgentJob × Bool) × Db → Result Bool × Db
unfolding vanished_error
committed key before (none, after) = (raise (vanished_error key), before)
committed key before (some (job, created), after) = (ok created, after)

-- After an item the loop goes on, or an exception leaves it with what was committed.
unfoldable pub go_on :
    (Counts → Db → Result Counts × Db) → Counts → Result Bool × Db → Result Counts × Db
go_on rest c (raise exc, db) = (raise exc, db)
go_on rest c (ok created, db) = rest (counted created c) db

module _ (show : Json → Text) where
  -- `item["discovery_id"]` as a text, and `item.get("source_url")`
  unfoldable pub read_item : Json → Result (Text × Json)
  unfolding key_failure
  read_item (obj item) = elim (get_field (lit "discovery_id") item) [
    | none ↦ raise (key_failure (lit "discovery_id"))
    | some id ↦ ok (text_of show id, get_value (lit "source_url") item)
  ]
  read_item _ = raise shape_failure

  -- The line of an item in a dry run.
  unfoldable pub would_line : Json → Result Text
  unfolding key_failure
  would_line (obj item) = elim (get_field (lit "discovery_id") item) [
    | none ↦ raise (key_failure (lit "discovery_id"))
    | some id ↦ ok (
        text_of show id
        ++ lit "  "
        ++ text_of show (or_value (get_value (lit "raw_title") item) (str (lit "(untitled)"))))
  ]
  would_line _ = raise shape_failure

  abbrev pub join_line : Result Text → Result (List Text) → Result (List Text)
  join_line (raise exc) rest = raise exc
  join_line (ok line) (raise exc) = raise exc
  join_line (ok line) (ok lines) = ok (line ∷ lines)

  unfoldable pub would_lines : Items → Result (List Text)
  would_lines nil = ok []
  would_lines (cons item items) = join_line (would_line item) (would_lines items)

  module _ (settings : Settings) (sha256_hex : Text → Text) where
    unfoldable pub key_for : Text → Text
    key_for reference =
        job_idempotency_key sha256_hex use_case_id settings.workflow_version reference

    unfoldable pub item_request : Draw → Text → Json → JobRequest
    unfolding key_for
    item_request d reference source = record {
      product_id = lit "scholarship_finder";
      use_case_id = use_case_id;
      input_reference = reference;
      correlation_id = d.correlation_id;
      idempotency_key = key_for reference;
      workflow_version = settings.workflow_version;
      payload = field (lit "source_url") source end;
      expires_at = none;
    }

    unfoldable pub enqueue_item : Draw → Text → Json → Db → Result Bool × Db
    unfolding item_request committed
    enqueue_item d reference source db =
        committed (key_for reference) db (enqueue_job d.job_id (item_request d reference source) db)

    unfoldable pub enqueue_read : Draw → Db → Result (Text × Json) → Result Bool × Db
    unfolding enqueue_item
    enqueue_read d db (raise exc) = (raise exc, db)
    enqueue_read d db (ok (reference, source)) = enqueue_item d reference source db

    -- One turn of the loop: whether the job was made.
    unfoldable pub submit_item : Draw → Json → Db → Result Bool × Db
    unfolding read_item enqueue_read
    submit_item d item db = enqueue_read d db (read_item item)

    unfoldable pub submit_items : (ℕ → Draw) → ℕ → Items → Counts → Db → Result Counts × Db
    unfolding go_on submit_item
    submit_items draws i nil c db = (ok c, db)
    submit_items draws i (cons item items) c db =
        go_on (submit_items draws (i + 1) items) c (submit_item (draws i) item db)

    abbrev pub reported : Result Counts × Db → Result Report × Db
    reported (raise exc, db) = (raise exc, db)
    reported (ok c, db) = (ok (submission c), db)

    abbrev pub listed : Result (List Text) → Result Report
    listed (raise exc) = raise exc
    listed (ok lines) = ok (would_submit lines)

    -- What is done with the items of a page.
    unfoldable pub process : Bool → (ℕ → Draw) → Items → Db → Result Report × Db
    unfolding submit_items would_lines
    process dry_run draws nil db = (ok nothing_to_process, db)
    process true draws items db = (listed (would_lines items), db)
    process false draws items db =
        reported (submit_items draws 0 items (record { submitted = 0; existing = 0 }) db)

-- `client_from_settings` and the page that is listed
unfoldable pub list_items : ProductHttp → ProductSettings → Settings → ℕ → Result Items
list_items http product settings limit = elim (client_from_settings product) [
  | raise exc ↦ raise exc
  | ok client ↦
      elim (list_discoveries http client limit none (some settings.workflow_version) true) [
        | raise exc ↦ raise exc
        | ok page ↦ read_items (get_value (lit "items") page)
      ]
]

unfoldable pub run_page :
    ProductHttp
    → ProductSettings
    → Settings
    → (Text → Text)
    → (ℕ → Draw)
    → ℕ
    → Bool
    → Db
    → Result Report × Db
unfolding list_items process
run_page http product settings sha256_hex draws limit dry_run db =
    elim (list_items http product settings limit) [
      | raise exc ↦ (raise exc, db)
      | ok items ↦ process http.show settings sha256_hex dry_run draws items db
    ]

-- `main`: a limit out of its bounds ends the program with a usage error.
unfoldable pub main :
    ProductHttp
    → ProductSettings
    → Settings
    → (Text → Text)
    → (ℕ → Draw)
    → ℕ
    → Bool
    → Db
    → Option (Result Report × Db)
unfolding run_page
main http product settings sha256_hex draws limit dry_run db =
    if leb 1 limit && leb limit 200
    then some (run_page http product settings sha256_hex draws limit dry_run db)
    else none
