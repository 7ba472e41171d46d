-- ===== src/Runtime/Jobs/Moves.antt =====
-- The lifecycle that the docstrings of src/app/infra/jobs.py promise of a row, as a relation on state and
-- attempts, and the proof that the statements of sweepers, workers that claim, and submissions follow it.
use mathlib.Core.Option
use edufurther_agent_be.Base.{
  ℕ, ◌+◌, ◌≡◌, refl, sym, ap, ◌∙◌, ◌⊎◌, inl, inr, Bool, true, false, none, some, List, [], ◌∷◌,
  Bool-cases, Option-cases, arith, ==_iff,
}
use edufurther_agent_be.Runtime.Retries.{
  JobState, queued, running, retry_wait, waiting_review, completed, failed_review, cancelled,
  JobTransition, is_claimable, claim,
}
use edufurther_agent_be.Runtime.Retries.Lifecycle.{claim_lem}
use edufurther_agent_be.Runtime.Jobs.{
  AgentJob, Db, JobRequest, find_job, find_key, update_where, apply, has_id, id_in, is_running,
  select_ids, stale_row, requeue, enqueue_job, insert_job, new_row, claim_job, apply_transition,
  reclaim_expired_leases, renew_lease,
}
use edufurther_agent_be.Runtime.Jobs.Rows.{
  set_row, find_job-update_where, find_key-update_where, find_job-has_id, find_job-append,
  apply-job_id, apply_fields,
}
use edufurther_agent_be.Runtime.Jobs.Keys.{UniqueKeys}
use edufurther_agent_be.Runtime.Jobs.Due.{find_job-In, In-select_ids}
use edufurther_agent_be.Runtime.Jobs.Claims.{claim_job-eq_some, claim_job_taken}
use edufurther_agent_be.Runtime.Jobs.Leases.{any-In}

-- What counts of a row: its state and how often it was attempted.
pub record Point : Type 0 where
  pub state : JobState
  pub attempts : ℕ

abbrev pub point : AgentJob → Point
point job = record { state = job.state; attempts = job.attempts }

-- One move: a claim starts the next attempt of a row that is waiting, and a requeue sends a running row
-- back on the attempt that it has.
pub data Move (p q : Point) : Type 0 where
  claimed : is_claimable p.state ≡ true → q.state ≡ running → q.attempts ≡ p.attempts + 1 → Move p q
  requeued : p.state ≡ running → q.state ≡ retry_wait → q.attempts ≡ p.attempts → Move p q

pub data Moves : Point → Point → Type 0 where
  here : {p q : Point} → p ≡ q → Moves p q
  moved : {p q r : Point} → Move p q → Moves q r → Moves p r

-- A statement of another session, with the conditions under which it is made.
pub data Statement (db db' : Db) : Type 0 where
  enqueues :
      (fresh : ℕ) (r : JobRequest)
      → find_job fresh db.jobs ≡ none
      → db' ≡ (enqueue_job fresh r db).1
      → Statement db db'
  claims : (id lease now : ℕ) → db' ≡ (claim_job id lease now db).1 → Statement db db'
  reclaims :
      (locked : ℕ → Bool) (limit now : ℕ)
      → db' ≡ (reclaim_expired_leases locked limit now db).1
      → Statement db db'
  renews : (id lease now : ℕ) → db' ≡ renew_lease id lease now db → Statement db db'

pub data Statements : Db → Db → Type 0 where
  stop : {db db' : Db} → db' ≡ db → Statements db db'
  then_next : {db db' db'' : Db} → Statement db db' → Statements db' db'' → Statements db db''

-- A row that a move or no move makes of another, still under its id.
abbrev pub Stays : ℕ → AgentJob → Db → Type 0
Stays id job db =
    (job' : AgentJob) × (find_job id db.jobs ≡ some job')
    × ((point job' ≡ point job) ⊎ Move (point job) (point job'))

set_row-key :
    (p : AgentJob → Bool) (f : AgentJob → AgentJob) (j : AgentJob)
    → ((job : AgentJob) → (f job).idempotency_key ≡ job.idempotency_key)
    → (set_row p f j).idempotency_key ≡ j.idempotency_key
set_row-key p f j keys = elim (Bool-cases (p j)) [ inl y ↦ rw y (keys j) | inr n ↦ rw n refl ]

set_row-id :
    (p : AgentJob → Bool) (f : AgentJob → AgentJob) (j : AgentJob)
    → ((job : AgentJob) → (f job).job_id ≡ job.job_id)
    → (set_row p f j).job_id ≡ j.job_id
set_row-id p f j ids = elim (Bool-cases (p j)) [ inl y ↦ rw y (ids j) | inr n ↦ rw n refl ]

pub UniqueKeys-update_where :
    (p : AgentJob → Bool) (f : AgentJob → AgentJob) (jobs : List AgentJob)
    → ((job : AgentJob) → (f job).job_id ≡ job.job_id)
    → ((job : AgentJob) → (f job).idempotency_key ≡ job.idempotency_key)
    → UniqueKeys jobs
    → UniqueKeys (update_where p f jobs)
unfolding update_where
UniqueKeys-update_where p f [] ids keys u = tt
UniqueKeys-update_where p f (j ∷ jobs) ids keys u = (
  ap (λ k. find_key k (update_where p f jobs)) (set_row-key p f j keys)
      ∙ find_key-update_where j.idempotency_key p f jobs keys
      ∙ ap (λ t. Option.map (set_row p f) t) u.0,
  ap (λ k. find_job k (update_where p f jobs)) (set_row-id p f j ids)
      ∙ find_job-update_where j.job_id p f jobs ids
      ∙ ap (λ t. Option.map (set_row p f) t) u.1,
  UniqueKeys-update_where p f jobs ids keys u.2,
)

Stays-update_where :
    (p : AgentJob → Bool) (f : AgentJob → AgentJob) (id : ℕ) (jobs : List AgentJob) (job : AgentJob)
    → ((x : AgentJob) → (f x).job_id ≡ x.job_id)
    → find_job id jobs ≡ some job
    → ((p job ≡ false) ⊎ ((point (f job) ≡ point job) ⊎ Move (point job) (point (f job))))
    → (job' : AgentJob) × (find_job id (update_where p f jobs) ≡ some job')
      × ((point job' ≡ point job) ⊎ Move (point job) (point job'))
Stays-update_where p f id jobs job ids found moves = (
  set_row p f job,
  find_job-update_where id p f jobs ids ∙ ap (λ t. Option.map (set_row p f) t) found,
  elim (Bool-cases (p job)) [
    | inl y ↦ rw y (elim moves [ inl n ↦ cc | inr m ↦ m ])
    | inr n ↦ rw n (inl refl)
  ],
)

pub enqueue_job-Stays :
    (fresh : ℕ) (r : JobRequest) (db : Db) (id : ℕ) (job : AgentJob)
    → find_job id db.jobs ≡ some job
    → Stays id job (enqueue_job fresh r db).1
unfolding enqueue_job insert_job
enqueue_job-Stays fresh r db id job found = (
  job,
  elim (Option-cases (find_key r.idempotency_key db.jobs)) [
    | inl e ↦ rw (e, insert_job) (find_job-append id db.jobs (new_row fresh r ∷ []) ∙ rw found refl)
    | inr e ↦ rw (e.1, insert_job) found
  ],
  inl refl,
)

pub claim_job-cases :
    (id lease now : ℕ) (db : Db)
    → (claim_job id lease now db ≡ (none, db))
      ⊎ ((job : AgentJob) × (db' : Db) × (claim_job id lease now db ≡ (some job, db')))
unfolding claim_job
claim_job-cases id lease now db = elim (Option-cases (find_job id db.jobs)) [
  | inl e ↦ inl (rw (e, claim_job) refl)
  | inr (old, e) ↦
      elim (Option-cases (claim old.state old.attempts lease old.next_attempt_at now)) [
        | inl f ↦ inl (rw (e, claim_job, f) refl)
        | inr (t, f) ↦
            inr (apply t old, apply_transition id t db, claim_job_taken id lease now db old t e f)
      ]
]

-- The row that a query finds is one.
find_job_once :
    (id k : ℕ) (jobs : List AgentJob) (a b : AgentJob)
    → find_job id jobs ≡ some a
    → find_job k jobs ≡ some b
    → k ≡ id
    → a ≡ b
find_job_once id k jobs a b e f same = cc

apply-Move :
    (t : JobTransition) (lease now : ℕ) (job : AgentJob)
    → claim job.state job.attempts lease job.next_attempt_at now ≡ some t
    → Move (point job) (point (apply t job))
apply-Move t lease now job h =
    let (waiting, due, state, attempts, expires, next) =
      claim_lem job.state job.attempts lease job.next_attempt_at now t h in
    let (s, n, m, l) = apply_fields t job in claimed waiting (s ∙ state) (n ∙ attempts)

claimed-Stays :
    (id lease now : ℕ) (db : Db) (k : ℕ) (job old : AgentJob) (t : JobTransition)
    → find_job id db.jobs ≡ some old
    → claim old.state old.attempts lease old.next_attempt_at now ≡ some t
    → find_job k db.jobs ≡ some job
    → Stays k job (apply_transition id t db)
unfolding apply_transition
claimed-Stays id lease now db k job old t there claimed_by found =
    Stays-update_where (has_id id) (apply t) k db.jobs job (apply-job_id t) found
      (elim (Bool-cases (has_id id job)) [
        | inr n ↦ inl n
        | inl y ↦
            let same : old ≡ job =
              find_job_once id k db.jobs old job there found
                (sym (find_job-has_id k db.jobs job found) ∙ (==_iff job.job_id id).0 y) in
            inr (inr (apply-Move t lease now job (rw (sym same) claimed_by)))
      ])

pub claim_job-Stays :
    (id lease now : ℕ) (db : Db) (k : ℕ) (job : AgentJob)
    → find_job k db.jobs ≡ some job
    → Stays k job (claim_job id lease now db).1
claim_job-Stays id lease now db k job found = elim (claim_job-cases id lease now db) [
  | inl e ↦ (job, ap (λ t. find_job k t.1.jobs) e ∙ found, inl refl)
  | inr (job', db', e) ↦
      let (old, t, there, claimed_by, taken, stored) =
        claim_job-eq_some id lease now db job' db' e in
      let (x, x_found, x_moved) =
        claimed-Stays id lease now db k job old t there claimed_by found in
      (x, ap (λ (u : Db). find_job k u.jobs) (ap (λ u. u.1) e ∙ stored) ∙ x_found, x_moved)
]

running_state : (state : JobState) → is_running state ≡ true → state ≡ running
running_state running h = refl
running_state queued h = cc
running_state retry_wait h = cc
running_state waiting_review h = cc
running_state completed h = cc
running_state failed_review h = cc
running_state cancelled h = cc

stale_row-running : (now : ℕ) (job : AgentJob) → stale_row now job ≡ true → job.state ≡ running
unfolding stale_row
stale_row-running now job h = running_state job.state (ground arith)

requeue-Move :
    (now : ℕ) (job : AgentJob) → job.state ≡ running → Move (point job) (point (requeue now job))
unfolding requeue
requeue-Move now job h = requeued h refl refl

pub requeue-id : (now : ℕ) (job : AgentJob) → (requeue now job).job_id ≡ job.job_id
unfolding requeue
requeue-id now job = refl

pub requeue-key :
    (now : ℕ) (job : AgentJob) → (requeue now job).idempotency_key ≡ job.idempotency_key
unfolding requeue
requeue-key now job = refl

selected-running :
    (locked : ℕ → Bool) (limit now : ℕ) (jobs : List AgentJob) (id : ℕ) (job : AgentJob)
    → UniqueKeys jobs
    → find_job id jobs ≡ some job
    → id_in (select_ids locked limit (stale_row now) jobs) job ≡ true
    → job.state ≡ running
selected-running locked limit now jobs id job u found chosen =
    let (r, inside, i, t) =
      In-select_ids locked limit (stale_row now) jobs job.job_id
        (any-In job.job_id (select_ids locked limit (stale_row now) jobs) chosen) in
    let same : r ≡ job =
      find_job_once r.job_id id jobs r job (find_job-In r jobs u inside) found
        (sym (find_job-has_id id jobs job found) ∙ sym i) in
    stale_row-running now job (rw (sym same) (ground (arith, t)))

pub reclaim-Stays :
    (locked : ℕ → Bool) (limit now : ℕ) (db : Db) (id : ℕ) (job : AgentJob)
    → UniqueKeys db.jobs
    → find_job id db.jobs ≡ some job
    → Stays id job (reclaim_expired_leases locked limit now db).1
unfolding reclaim_expired_leases
reclaim-Stays locked limit now db id job u found =
    Stays-update_where (id_in (select_ids locked limit (stale_row now) db.jobs)) (requeue now) id
      db.jobs job (requeue-id now) found
      (elim (Bool-cases (id_in (select_ids locked limit (stale_row now) db.jobs) job)) [
        | inr n ↦ inl n
        | inl y ↦ inr (
            inr (requeue-Move now job (selected-running locked limit now db.jobs id job u found y)))
      ])

pub renew_lease-Stays :
    (id lease now : ℕ) (db : Db) (k : ℕ) (job : AgentJob)
    → find_job k db.jobs ≡ some job
    → Stays k job (renew_lease id lease now db)
unfolding renew_lease
renew_lease-Stays id lease now db k job found =
    Stays-update_where _ _ k db.jobs job (λ x. refl) found (inr (inl refl))
