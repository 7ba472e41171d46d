-- ===== src/Api/Jobs/Submission.antt =====
-- What submissions of the same work lead to, and which work counts as the same.
use edufurther_agent_be.Base.{
  ◌≤◌, ◌≡◌, refl, sym, ap, ◌∙◌, Bool, true, false, none, some, List, [], ◌∷◌, ◌++◌, Text, lit,
  contains_text, length, append_assoc, arith, le→leb, get_or, is_none, if◌then◌else◌,
}
use edufurther_agent_be.Core.Identifiers.{job_idempotency_key, max_idempotency_key_length}
use edufurther_agent_be.Settings.{Settings}
use edufurther_agent_be.Runtime.Jobs.{AgentJob, Db, enqueue_job, find_key, new_row}
use edufurther_agent_be.Runtime.Jobs.Keys.{enqueue_job_lem, enqueue_job_twice}
use edufurther_agent_be.Api.Jobs.{
  JobSubmission, JobAccepted, accepted, Arrival, text_or, version_of, key_of, request_of,
  submit_job,
}

-- Where the same characters are cut differently into a version and a reference, the text in front of
-- the length test is the same.
abbrev joined_key : Text → Text → Text → Text
joined_key u v r = u ++ lit ":" ++ v ++ lit ":" ++ r

joined_key-shift :
    (u v w r : Text) → joined_key u (v ++ lit ":" ++ w) r ≡ joined_key u v (w ++ lit ":" ++ r)
joined_key-shift u v w r = simp append_assoc refl

-- The key of a job does not tell where its version ends: a version `v:w` with the reference `r` has
-- the key of the version `v` with the reference `w:r`, as long as the key is short enough to be kept
-- as it is.
pub job_idempotency_key_collides :
    (sha256_hex : Text → Text) (u v w r : Text)
    → length (u ++ lit ":" ++ (v ++ lit ":" ++ w) ++ lit ":" ++ r) ≤ max_idempotency_key_length
    → job_idempotency_key sha256_hex u (v ++ lit ":" ++ w) r
      ≡ job_idempotency_key sha256_hex u v (w ++ lit ":" ++ r)
unfolding job_idempotency_key
job_idempotency_key_collides sha256_hex u v w r short =
    let shift = joined_key-shift u v w r in
    let fits =
      le→leb (length (joined_key u (v ++ lit ":" ++ w) r)) max_idempotency_key_length short in
    ground (arith, shift, fits, ap (λ (t : Text). length t) shift)

module _ (settings : Settings) (sha256_hex : Text → Text) (known : List Text) where
  abbrev answer : Arrival → JobSubmission → AgentJob → Bool → JobAccepted
  answer a body job created = record {
    job_id = job.job_id;
    state = job.state;
    created = created;
    correlation_id = text_or body.correlation_id a.correlation_id;
    workflow_version = version_of settings sha256_hex known body;
  }

  -- A submission of a known use case, by what the job store answers.
  submit_job-known :
      (a : Arrival) (body : JobSubmission) (db db' : Db) (job : AgentJob) (created : Bool)
      → contains_text body.use_case_id known ≡ true
      → enqueue_job a.job_id (request_of settings sha256_hex known a body) db
        ≡ (some (job, created), db')
      → submit_job settings sha256_hex known a body db
        ≡ (accepted (answer a body job created), db', if created then some job.job_id else none)
  unfolding submit_job
  submit_job-known a body db db' job created k e = ground arith

  request_of-key :
      (a : Arrival) (body : JobSubmission)
      → (request_of settings sha256_hex known a body).idempotency_key
        ≡ key_of settings sha256_hex known body
  unfolding request_of
  request_of-key a body = refl

  -- Of two submissions of known use cases under one key, the first is accepted. Where the key has no row,
  -- it makes one behind the others, is answered as created and starts a run of that job; otherwise it is
  -- answered with the job that is there, as not created, starts nothing and changes nothing. The second
  -- is accepted with the same job, as not created, starts nothing and changes nothing.
  pub submit_job_once :
      (a a' : Arrival) (body body' : JobSubmission) (db : Db)
      → contains_text body.use_case_id known ≡ true
      → contains_text body'.use_case_id known ≡ true
      → key_of settings sha256_hex known body' ≡ key_of settings sha256_hex known body
      → let first = submit_job settings sha256_hex known a body db in
        let second = submit_job settings sha256_hex known a' body' first.1 in
        let found = find_key (key_of settings sha256_hex known body) db.jobs in
        let row = new_row a.job_id (request_of settings sha256_hex known a body) in
        (x : JobAccepted) × (y : JobAccepted) × (first.0 ≡ accepted x)
        × (x.created ≡ is_none found)
        × (x.job_id ≡ (get_or found row).job_id)
        × (first.1 ≡ (if x.created then record db { jobs = db.jobs ++ row ∷ [] } else db))
        × (first.2 ≡ (if x.created then some x.job_id else none))
        × (second.0 ≡ accepted y)
        × (y.job_id ≡ x.job_id)
        × (y.created ≡ false)
        × (second.1 ≡ first.1)
        × (second.2 ≡ none)
  unfolding key_of request_of
  submit_job_once a a' body body' db k k' same =
      let r = request_of settings sha256_hex known a body in
      let r' = request_of settings sha256_hex known a' body' in
      let one_key : r'.idempotency_key ≡ r.idempotency_key =
        request_of-key a' body' ∙ same ∙ sym (request_of-key a body) in
      let found = find_key (key_of settings sha256_hex known body) db.jobs in
      let job : AgentJob = get_or found (new_row a.job_id r) in
      let created : Bool = is_none found in
      let db1 : Db =
        if created then record db { jobs = db.jobs ++ new_row a.job_id r ∷ [] } else db in
      let stored : enqueue_job a.job_id r db ≡ (some (job, created), db1) =
        enqueue_job_lem a.job_id r db in
      let again : enqueue_job a'.job_id r' db1 ≡ (some (job, false), db1) =
        rw stored at (enqueue_job_twice a.job_id a'.job_id r r' db one_key) in
      let first = submit_job-known a body db db1 job created k stored in
      let second = submit_job-known a' body' db1 db1 job false k' again in
      (
        answer a body job created,
        answer a' body' job false,
        rw first refl,
        refl,
        refl,
        rw first refl,
        rw first refl,
        rw first (rw second refl),
        refl,
        refl,
        rw first (rw second refl),
        rw first (rw second refl),
      )
