-- ===== src/Scripts/Batch/Kept.antt =====
-- What one item of a batch leaves in the job store.
use edufurther_agent_be.Base.{
  ℕ, ◌≡◌, refl, sym, ap, ◌∙◌, Bool, false, Option, none, some, List, ◌++◌, Text, arith, inl, inr,
  Option-cases,
}
use edufurther_agent_be.Errors.{Result, ok, raise}
use edufurther_agent_be.Json.{Json, Items, nil, cons}
use edufurther_agent_be.Settings.{Settings}
use edufurther_agent_be.Runtime.Jobs.{AgentJob, Db, JobRequest, find_key, new_row, enqueue_job}
use edufurther_agent_be.Runtime.Jobs.Rows.{find_key-append}
use edufurther_agent_be.Runtime.Jobs.Keys.{
  find_key-insert_job, enqueue_job_first, enqueue_job_again,
}
use edufurther_agent_be.Scripts.Batch.{
  Draw, committed, read_item, key_for, item_request, enqueue_item, enqueue_read, submit_item,
}

abbrev pub HasKey : Text → Db → Type 0
HasKey key db = (job : AgentJob) × (find_key key db.jobs ≡ some job)

find_key-kept :
    (key : Text) (jobs more : List AgentJob) (job : AgentJob)
    → find_key key jobs ≡ some job
    → find_key key (jobs ++ more) ≡ some job
find_key-kept key jobs more job h = ground (arith, find_key-append key jobs more, h)

enqueue_job-HasKey :
    (key : Text) (fresh : ℕ) (r : JobRequest) (db : Db)
    → HasKey key db
    → HasKey key (enqueue_job fresh r db).1
enqueue_job-HasKey key fresh r db (job, h) =
    elim (Option-cases (find_key r.idempotency_key db.jobs)) [
      | inl e ↦ (job, rw (enqueue_job_first fresh r db e) (find_key-kept key db.jobs _ job h))
      | inr e ↦ (job, rw (enqueue_job_again fresh r db e.0 e.1) h)
    ]

committed-HasKey :
    (k key : Text) (before : Db) (made : Option (AgentJob × Bool) × Db)
    → HasKey k before
    → HasKey k made.1
    → HasKey k (committed key before made).1
unfolding committed
committed-HasKey k key before (none, after) b a = b
committed-HasKey k key before (some (job, created), after) b a = a

module _ (show : Json → Text) (settings : Settings) (sha256_hex : Text → Text) where
  abbrev pub key : Text → Text
  key = key_for show settings sha256_hex

  -- An item that could be read, with a row under its key.
  abbrev pub Submitted : Json → Db → Type 0
  Submitted item db =
      (reference : Text) × (source : Json) × (read_item show item ≡ ok (reference, source))
      × HasKey (key reference) db

  abbrev pub AllSubmitted : Items → Db → Type 0
  AllSubmitted nil db = Unit
  AllSubmitted (cons item items) db = Submitted item db × AllSubmitted items db

  item_request-key :
      (d : Draw) (reference : Text) (source : Json)
      → (item_request show settings sha256_hex d reference source).idempotency_key ≡ key reference
  unfolding item_request
  item_request-key d reference source = refl

  enqueue_item-HasKey :
      (k : Text) (d : Draw) (reference : Text) (source : Json) (db : Db)
      → HasKey k db
      → HasKey k (enqueue_item show settings sha256_hex d reference source db).1
  unfolding enqueue_item
  enqueue_item-HasKey k d reference source db h =
      committed-HasKey k _ db _ h (enqueue_job-HasKey k d.job_id _ db h)

  -- An item that is submitted has a row under its key.
  enqueue_item-makes :
      (d : Draw) (reference : Text) (source : Json) (db : Db)
      → HasKey (key reference) (enqueue_item show settings sha256_hex d reference source db).1
  unfolding enqueue_item committed item_request
  enqueue_item-makes d reference source db =
      let r = item_request show settings sha256_hex d reference source in
      let same = item_request-key d reference source in
      elim (Option-cases (find_key (key reference) db.jobs)) [
        | inl e ↦ (
          new_row d.job_id r,
          rw (enqueue_job_first d.job_id r db (rw same e))
              (rw (sym same) (find_key-insert_job d.job_id r db (rw same e))),
        )
        | inr e ↦ (e.0, rw (enqueue_job_again d.job_id r db e.0 (rw same e.1)) e.1)
      ]

  enqueue_item-again :
      (d : Draw) (reference : Text) (source : Json) (db : Db)
      → HasKey (key reference) db
      → enqueue_item show settings sha256_hex d reference source db ≡ (ok false, db)
  unfolding enqueue_item committed
  enqueue_item-again d reference source db (job, h) =
      let r = item_request show settings sha256_hex d reference source in
      rw (enqueue_job_again d.job_id r db job (rw (item_request-key d reference source) h)) refl

  pub enqueue_read-HasKey :
      (k : Text) (d : Draw) (db : Db) (read : Result (Text × Json))
      → HasKey k db
      → HasKey k (enqueue_read show settings sha256_hex d db read).1
  unfolding enqueue_read
  enqueue_read-HasKey k d db (raise exc) h = h
  enqueue_read-HasKey k d db (ok (reference, source)) h =
      enqueue_item-HasKey k d reference source db h

  pub enqueue_read-Submitted :
      (d : Draw) (db : Db) (item : Json) (created : Bool) (read : Result (Text × Json))
      → read_item show item ≡ read
      → (enqueue_read show settings sha256_hex d db read).0 ≡ ok created
      → Submitted item (enqueue_read show settings sha256_hex d db read).1
  unfolding enqueue_read
  enqueue_read-Submitted d db item created (raise exc) e h = absurd cc
  enqueue_read-Submitted d db item created (ok (reference, source)) e h =
      (reference, source, e, enqueue_item-makes d reference source db)

  pub submit_item-again :
      (d : Draw) (item : Json) (db : Db)
      → Submitted item db
      → submit_item show settings sha256_hex d item db ≡ (ok false, db)
  unfolding submit_item enqueue_read
  submit_item-again d item db (reference, source, e, h) =
      ap (λ read. enqueue_read show settings sha256_hex d db read) e
      ∙ enqueue_item-again d reference source db h
