-- ===== src/Runtime/Jobs/Claims.antt =====
-- Claiming a row: who can, for how long, and how a sweep's selection relates to it.
use mathlib.Core.Path.{subst}
use edufurther_agent_be.Base.{
  ℕ, ◌+◌, ◌≤◌, ◌≡◌, sym, ap, ◌∙◌, ◌⊎◌, inl, inr, Bool, true, false, none, some, length, In, arith,
  Option-cases,
}
use edufurther_agent_be.Runtime.Retries.{claim, running, seconds, JobTransition}
use edufurther_agent_be.Runtime.Retries.Lifecycle.{claim_lem, claim_refused}
use edufurther_agent_be.Runtime.Jobs.{
  AgentJob, Db, find_job, due_row, due_job_ids, claim_job, apply, apply_transition,
}
use edufurther_agent_be.Runtime.Jobs.Keys.{UniqueKeys}
use edufurther_agent_be.Runtime.Jobs.Rows.{find_job-apply_transition, apply_fields, find_job-has_id}
use edufurther_agent_be.Runtime.Jobs.Due.{
  In-select_ids, select_ids_all, In-find_job, length-keep, free, find_job-In,
}

-- What a claim of a job gives, by what the table holds under its id.
claim_job_missing :
    (id lease now : ℕ) (db : Db)
    → find_job id db.jobs ≡ none
    → claim_job id lease now db ≡ (none, db)
unfolding claim_job
claim_job_missing id lease now db e = ground arith

claim_job_refused :
    (id lease now : ℕ) (db : Db) (job : AgentJob)
    → find_job id db.jobs ≡ some job
    → claim job.state job.attempts lease job.next_attempt_at now ≡ none
    → claim_job id lease now db ≡ (none, db)
unfolding claim_job
claim_job_refused id lease now db job e c = ground arith

pub claim_job_taken :
    (id lease now : ℕ) (db : Db) (job : AgentJob) (t : JobTransition)
    → find_job id db.jobs ≡ some job
    → claim job.state job.attempts lease job.next_attempt_at now ≡ some t
    → claim_job id lease now db ≡ (some (apply t job), apply_transition id t db)
unfolding claim_job apply_transition
claim_job_taken id lease now db job t e c = ground arith

claim-cases :
    (job : AgentJob) (lease now : ℕ)
    → ((due_row now job ≡ false)
        × (claim job.state job.attempts lease job.next_attempt_at now ≡ none))
      ⊎ ((t : JobTransition) × (due_row now job ≡ true)
          × (claim job.state job.attempts lease job.next_attempt_at now ≡ some t))
unfolding claim due_row
claim-cases job lease now =
    elim (Option-cases (claim job.state job.attempts lease job.next_attempt_at now)) [
      | inl e ↦ inl (ground arith, e)
      | inr (t, e) ↦ inr (t, ground arith, e)
    ]

-- A successful claim, taken apart: the row that was there, and the row that is there now.
pub claim_job-eq_some :
    (id lease now : ℕ) (db : Db) (job : AgentJob) (db' : Db)
    → claim_job id lease now db ≡ (some job, db')
    → (old : AgentJob) × (t : JobTransition) × (find_job id db.jobs ≡ some old)
      × (claim old.state old.attempts lease old.next_attempt_at now ≡ some t)
      × (job ≡ apply t old)
      × (db' ≡ apply_transition id t db)
claim_job-eq_some id lease now db job db' h = elim (Option-cases (find_job id db.jobs)) [
  | inl e ↦ cc (claim_job_missing id lease now db e)
  | inr (old, e) ↦ elim (claim-cases old lease now) [
    | inl (f, c) ↦ cc (claim_job_refused id lease now db old e c)
    | inr (t, y, c) ↦
        let taken = claim_job_taken id lease now db old t e c in (old, t, e, c, cc taken, cc taken)
  ]
]

-- A successful claim leaves the row running on a lease of the given length. On any table that has the
-- row as running, whatever else has changed in it or in the other rows, a claim of it fails at whatever
-- time and changes nothing.
pub claim_job_exclusive :
    (id lease now : ℕ) (db : Db) (job : AgentJob) (db' : Db)
    → claim_job id lease now db ≡ (some job, db')
    → (find_job id db'.jobs ≡ some job)
      × (job.state ≡ running)
      × (job.lease_expires_at ≡ some (now + seconds lease))
      × ((lease' now' : ℕ) (db'' : Db) (row : AgentJob)
          → find_job id db''.jobs ≡ some row
          → row.state ≡ running
          → claim_job id lease' now' db'' ≡ (none, db''))
claim_job_exclusive id lease now db job db' h =
    let (old, t, found, claimed, moved, stored) = claim_job-eq_some id lease now db job db' h in
    let (a, b, c, d, e, f) =
      claim_lem old.state old.attempts lease old.next_attempt_at now t claimed in
    let row : find_job id db'.jobs ≡ some job =
      rw stored (rw (find_job-apply_transition id t db) (rw found (ap some (sym moved)))) in
    let runs : job.state ≡ running = ground (arith, apply_fields t old) in
    (
      row,
      runs,
      ground (arith, apply_fields t old),
      λ lease' now' db'' kept there still.
          claim_job_refused id lease' now' db'' kept there
            (claim_refused kept.state kept.attempts lease' kept.next_attempt_at now' (rw still)),
    )

-- A due row can be claimed, for one attempt more than it has had.
pub claim_job_due :
    (id lease now : ℕ) (db : Db) (job : AgentJob)
    → find_job id db.jobs ≡ some job
    → due_row now job ≡ true
    → (claimed : AgentJob) × (db' : Db) × (claim_job id lease now db ≡ (some claimed, db'))
      × (claimed.attempts ≡ job.attempts + 1)
claim_job_due id lease now db job found due = elim (claim-cases job lease now) [
  | inl (f, c) ↦ cc
  | inr (t, y, c) ↦ (
    apply t job,
    apply_transition id t db,
    claim_job_taken id lease now db job t found c,
    (apply_fields t job).1 ∙ (claim_lem job.state job.attempts lease job.next_attempt_at now t c).3,
  )
]

due_row_later :
    (job : AgentJob) (now later : ℕ)
    → now ≤ later
    → due_row now job ≡ true
    → due_row later job ≡ true
unfolding due_row
due_row_later job now later le h = ground arith

claim→due_row :
    (job : AgentJob) (lease now : ℕ) (t : JobTransition)
    → claim job.state job.attempts lease job.next_attempt_at now ≡ some t
    → due_row now job ≡ true
unfolding claim due_row
claim→due_row job lease now t h = ground arith

module _ (locked : ℕ → Bool) (limit now : ℕ) (db : Db) where
  -- Each id that a sweep selects can be claimed from the same table, now or later.
  pub due_job_ids-claim_job :
      (id lease later : ℕ)
      → UniqueKeys db.jobs
      → In id (due_job_ids locked limit now db)
      → now ≤ later
      → (job : AgentJob) × (db' : Db) × (claim_job id lease later db ≡ (some job, db'))
  unfolding due_job_ids
  due_job_ids-claim_job id lease later u m le =
      let (job, inside, i, t) = In-select_ids locked limit (due_row now) db.jobs id m in
      let found : find_job id db.jobs ≡ some job =
        subst (λ (k : ℕ). find_job k db.jobs ≡ some job) i (find_job-In job db.jobs u inside) in
      elim (claim-cases job lease later) [
        | inl (f, c) ↦ absurd (ground (arith, due_row_later job now later))
        | inr (t, y, c) ↦
            (apply t job, apply_transition id t db, claim_job_taken id lease later db job t found c)
      ]

  -- A row that can be claimed and that nobody holds is among those that a sweep with room selects.
  pub claim_job-due_job_ids :
      (id lease : ℕ) (job : AgentJob) (db' : Db)
      → claim_job id lease now db ≡ (some job, db')
      → locked id ≡ false
      → length db.jobs ≤ limit
      → In id (due_job_ids locked limit now db)
  unfolding due_job_ids
  claim_job-due_job_ids id lease job db' h unlocked fits =
      let (old, t, found, claimed, moved, stored) = claim_job-eq_some id lease now db job db' h in
      let same : old.job_id ≡ id = find_job-has_id id db.jobs old found in
      select_ids_all locked limit (due_row now) db.jobs id
        (omega (arith, length-keep (free locked (due_row now)) db.jobs))
        (old, In-find_job id db.jobs old found, same, free_of old lease t same claimed unlocked)
    where
      free_of :
          (old : AgentJob) (lease : ℕ) (t : JobTransition)
          → old.job_id ≡ id
          → claim old.state old.attempts lease old.next_attempt_at now ≡ some t
          → locked id ≡ false
          → free locked (due_row now) old ≡ true
      free_of old lease t same claimed unlocked =
          rw (claim→due_row old lease now t claimed) (rw same (rw unlocked))
