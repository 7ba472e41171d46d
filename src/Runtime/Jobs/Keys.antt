-- ===== src/Runtime/Jobs/Keys.antt =====
-- The unique keys of `agent_jobs`, and what they make of a redelivered submission.
use edufurther_agent_be.Base.{
  ℕ, ◌≡◌, refl, Bool, true, false, none, some, List, [], ◌∷◌, ◌++◌, Text, text_eq, text_eq_refl,
  arith, ◌==◌, if◌then◌else◌, get_or, is_none, Option-cases, inl, inr, text_eq→eq, eq→text_eq,
}
use edufurther_agent_be.Runtime.Jobs.{
  AgentJob, Db, find_job, find_key, JobRequest, new_row, enqueue_job, insert_job,
}
use edufurther_agent_be.Runtime.Jobs.Rows.{find_job-append, find_key-append, find_key-has_key}

-- `uq_agent_jobs_idempotency_key` and the primary key
abbrev pub UniqueKeys : List AgentJob → Type 0
UniqueKeys [] = Unit
UniqueKeys (j ∷ jobs) =
    (find_key j.idempotency_key jobs ≡ none) × (find_job j.job_id jobs ≡ none) × UniqueKeys jobs

find_key-new_row :
    (k : Text) (fresh : ℕ) (r : JobRequest)
    → find_key k (new_row fresh r ∷ [])
      ≡ (if text_eq r.idempotency_key k then some (new_row fresh r) else none)
unfolding find_key new_row
find_key-new_row k fresh r = refl

find_job-new_row :
    (id fresh : ℕ) (r : JobRequest)
    → find_job id (new_row fresh r ∷ []) ≡ (if fresh == id then some (new_row fresh r) else none)
unfolding find_job new_row
find_job-new_row id fresh r = refl

text_eq_flip : (a b : Text) → text_eq a b ≡ true → text_eq b a ≡ true
text_eq_flip a b h = eq→text_eq b a (rw (text_eq→eq a b h))

append-UniqueKeys :
    (fresh : ℕ) (r : JobRequest) (jobs : List AgentJob)
    → UniqueKeys jobs
    → find_key r.idempotency_key jobs ≡ none
    → find_job fresh jobs ≡ none
    → UniqueKeys (jobs ++ new_row fresh r ∷ [])
unfolding find_key find_job
append-UniqueKeys fresh r [] u k i = (refl, refl, tt)
append-UniqueKeys fresh r (j ∷ jobs) u k i = (
  ground (
    arith,
    find_key-append j.idempotency_key jobs (new_row fresh r ∷ []),
    find_key-new_row j.idempotency_key fresh r,
    text_eq_flip r.idempotency_key j.idempotency_key,
  ),
  ground (
    arith,
    find_job-append j.job_id jobs (new_row fresh r ∷ []),
    find_job-new_row j.job_id fresh r,
  ),
  append-UniqueKeys fresh r jobs u.2 (ground arith) (ground arith),
)

-- A submission keeps both keys of the table unique.
pub enqueue_job-UniqueKeys :
    (fresh : ℕ) (r : JobRequest) (db : Db)
    → UniqueKeys db.jobs
    → find_job fresh db.jobs ≡ none
    → UniqueKeys (enqueue_job fresh r db).1.jobs
unfolding enqueue_job insert_job
enqueue_job-UniqueKeys fresh r db u i = elim (Option-cases (find_key r.idempotency_key db.jobs)) [
  | inl e ↦ rw e (append-UniqueKeys fresh r db.jobs u e i)
  | inr e ↦ rw e.1 u
]

pub find_key-insert_job :
    (fresh : ℕ) (r : JobRequest) (db : Db)
    → find_key r.idempotency_key db.jobs ≡ none
    → find_key r.idempotency_key (db.jobs ++ new_row fresh r ∷ []) ≡ some (new_row fresh r)
find_key-insert_job fresh r db e = ground (
  arith,
  find_key-append r.idempotency_key db.jobs (new_row fresh r ∷ []),
  find_key-new_row r.idempotency_key fresh r,
  text_eq_refl r.idempotency_key,
)

-- The first delivery of a key stores one new queued row, under that key, and reports it as created.
pub enqueue_job_first :
    (fresh : ℕ) (r : JobRequest) (db : Db)
    → find_key r.idempotency_key db.jobs ≡ none
    → enqueue_job fresh r db
      ≡ (some (new_row fresh r, true), record db { jobs = db.jobs ++ new_row fresh r ∷ [] })
unfolding enqueue_job insert_job
enqueue_job_first fresh r db e = ground (arith, find_key-insert_job fresh r db e)

-- A delivery of a key that has a row reports that row and changes nothing.
pub enqueue_job_again :
    (fresh : ℕ) (r : JobRequest) (db : Db) (job : AgentJob)
    → find_key r.idempotency_key db.jobs ≡ some job
    → enqueue_job fresh r db ≡ (some (job, false), db)
unfolding enqueue_job insert_job
enqueue_job_again fresh r db job e = ground arith

-- A submission is answered with the row of its key, or with a new one behind the others.
pub enqueue_job_lem :
    (fresh : ℕ) (r : JobRequest) (db : Db)
    → let found = find_key r.idempotency_key db.jobs in
      let row = new_row fresh r in
      enqueue_job fresh r db ≡ (
        some (get_or found row, is_none found),
        if is_none found then record db { jobs = db.jobs ++ row ∷ [] } else db,
      )
enqueue_job_lem fresh r db = elim (Option-cases (find_key r.idempotency_key db.jobs)) [
  | inl e ↦ rw e (enqueue_job_first fresh r db e)
  | inr e ↦ rw e.1 (enqueue_job_again fresh r db e.0 e.1)
]

new_row-key : (fresh : ℕ) (r : JobRequest) → (new_row fresh r).idempotency_key ≡ r.idempotency_key
unfolding new_row
new_row-key fresh r = refl

-- A second submission under the key is answered with the row of the first and changes nothing.
pub enqueue_job_twice :
    (fresh fresh' : ℕ) (r r' : JobRequest) (db : Db)
    → r'.idempotency_key ≡ r.idempotency_key
    → enqueue_job fresh' r' (enqueue_job fresh r db).1 ≡ (
      some (get_or (find_key r.idempotency_key db.jobs) (new_row fresh r), false),
      (enqueue_job fresh r db).1,
    )
enqueue_job_twice fresh fresh' r r' db k =
    elim (Option-cases (find_key r.idempotency_key db.jobs)) [
      | inl e ↦
          rw (enqueue_job_first fresh r db e, e)
            (enqueue_job_again fresh' r' _ (new_row fresh r)
              (rw k (find_key-insert_job fresh r db e)))
      | inr e ↦
          rw (enqueue_job_again fresh r db e.0 e.1, e.1)
            (enqueue_job_again fresh' r' db e.0 (rw k e.1))
    ]

-- Whatever the table holds, a submission finds a row under its key; and a second submission under
-- that key, with any other contents, reports the same row, as not created, and changes nothing.
pub enqueue_job_idempotent :
    (fresh fresh' : ℕ) (r r' : JobRequest) (db : Db)
    → r'.idempotency_key ≡ r.idempotency_key
    → (job : AgentJob) × (created : Bool) × ((enqueue_job fresh r db).0 ≡ some (job, created))
      × (job.idempotency_key ≡ r.idempotency_key)
      × (enqueue_job fresh' r' (enqueue_job fresh r db).1
          ≡ (some (job, false), (enqueue_job fresh r db).1))
enqueue_job_idempotent fresh fresh' r r' db k =
    elim (Option-cases (find_key r.idempotency_key db.jobs)) [
      | inl e ↦
          let first = enqueue_job_first fresh r db e in
          (
            new_row fresh r,
            true,
            rw first,
            new_row-key fresh r,
            rw first (
                enqueue_job_again fresh' r' _ (new_row fresh r)
                  (rw k (find_key-insert_job fresh r db e))),
          )
      | inr e ↦
          let again = enqueue_job_again fresh r db e.0 e.1 in
          (
            e.0,
            false,
            rw again,
            find_key-has_key r.idempotency_key db.jobs e.0 e.1,
            rw again (enqueue_job_again fresh' r' db e.0 (rw k e.1)),
          )
    ]
