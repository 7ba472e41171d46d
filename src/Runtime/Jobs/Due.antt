-- ===== src/Runtime/Jobs/Due.antt =====
-- The selection of due rows: what a sweep takes, and in which order.
use edufurther_agent_be.Base.{
  ℕ, zero, suc, ◌≤◌, ◌≡◌, refl, sym, ap, ◌∙◌, ◌⊎◌, inl, inr, Bool, true, ◌&&◌, not, some, List, [],
  ◌∷◌, map, keep, take, take_all, length, length-take, In, arith, ==_refl, Bool-cases,
}
use edufurther_agent_be.Runtime.Jobs.{AgentJob, find_job, insert_id, sort_ids, select_ids}
use edufurther_agent_be.Runtime.Jobs.Keys.{UniqueKeys}

In-take : (x n : ℕ) (xs : List ℕ) → In x (take n xs) → In x xs
In-take x zero xs h = absurd h
In-take x (suc n) [] h = absurd h
In-take x (suc n) (y ∷ xs) (inl e) = inl e
In-take x (suc n) (y ∷ xs) (inr h) = inr (In-take x n xs h)

In-insert_id : (x n : ℕ) (ms : List ℕ) → In x (insert_id n ms) → (x ≡ n) ⊎ In x ms
unfolding insert_id
In-insert_id x n [] h = h
In-insert_id x n (m ∷ ms) h = ground (arith, In-insert_id x n ms)

insert_id-In : (x n : ℕ) (ms : List ℕ) → (x ≡ n) ⊎ In x ms → In x (insert_id n ms)
unfolding insert_id
insert_id-In x n [] h = h
insert_id-In x n (m ∷ ms) h = ground (arith, insert_id-In x n ms)

In-sort_ids : (x : ℕ) (ns : List ℕ) → In x (sort_ids ns) → In x ns
unfolding sort_ids
In-sort_ids x [] h = h
In-sort_ids x (n ∷ ns) h = ground (arith, In-insert_id x n (sort_ids ns), In-sort_ids x ns)

sort_ids-In : (x : ℕ) (ns : List ℕ) → In x ns → In x (sort_ids ns)
unfolding sort_ids
sort_ids-In x [] h = h
sort_ids-In x (n ∷ ns) h = ground (arith, insert_id-In x n (sort_ids ns), sort_ids-In x ns)

length-insert_id : (n : ℕ) (ms : List ℕ) → length (insert_id n ms) ≡ suc (length ms)
unfolding insert_id
length-insert_id n [] = refl
length-insert_id n (m ∷ ms) = ground (arith, length-insert_id n ms)

pub length-sort_ids : (ns : List ℕ) → length (sort_ids ns) ≡ length ns
unfolding sort_ids
length-sort_ids [] = refl
length-sort_ids (n ∷ ns) = ground (arith, length-insert_id n (sort_ids ns), length-sort_ids ns)

-- Ascending order.
abbrev pub IsAscending : List ℕ → Type 0
IsAscending [] = Unit
IsAscending (n ∷ []) = Unit
IsAscending (n ∷ m ∷ ms) = (n ≤ m) × IsAscending (m ∷ ms)

insert_id-IsAscending : (n : ℕ) (ms : List ℕ) → IsAscending ms → IsAscending (insert_id n ms)
unfolding insert_id
insert_id-IsAscending n [] h = tt
insert_id-IsAscending n (m ∷ []) h = ground arith
insert_id-IsAscending n (m ∷ k ∷ ms) h = ground (arith, insert_id-IsAscending n (k ∷ ms))

sort_ids-IsAscending : (ns : List ℕ) → IsAscending (sort_ids ns)
unfolding sort_ids
sort_ids-IsAscending [] = tt
sort_ids-IsAscending (n ∷ ns) = insert_id-IsAscending n (sort_ids ns) (sort_ids-IsAscending ns)

take-IsAscending : (n : ℕ) (ms : List ℕ) → IsAscending ms → IsAscending (take n ms)
take-IsAscending zero ms h = tt
take-IsAscending (suc n) [] h = tt
take-IsAscending (suc zero) (m ∷ []) h = tt
take-IsAscending (suc (suc n)) (m ∷ []) h = tt
take-IsAscending (suc zero) (m ∷ k ∷ ms) h = tt
take-IsAscending (suc (suc n)) (m ∷ k ∷ ms) h = (h.0, take-IsAscending (suc n) (k ∷ ms) h.1)

-- A row of the table under an id.
abbrev pub Row : ℕ → (AgentJob → Bool) → List AgentJob → Type 0
Row id p jobs = (job : AgentJob) × In job jobs × (job.job_id ≡ id) × (p job ≡ true)

abbrev ids_of : List AgentJob → List ℕ
ids_of = map (λ job. job.job_id)

Row-cons :
    (id : ℕ) (p : AgentJob → Bool) (j : AgentJob) (jobs : List AgentJob)
    → Row id p jobs
    → Row id p (j ∷ jobs)
Row-cons id p j jobs (job, m, i, t) = (job, inr m, i, t)

In-keep :
    (id : ℕ) (p : AgentJob → Bool) (jobs : List AgentJob)
    → In id (ids_of (keep p jobs))
    → Row id p jobs
In-keep id p [] h = absurd h
In-keep id p (j ∷ jobs) h = elim (Bool-cases (p j)) [
  | inl t ↦ elim (rw t at h) [
    | inl e ↦ (j, inl refl, sym e, t)
    | inr m ↦ Row-cons id p j jobs (In-keep id p jobs m)
  ]
  | inr f ↦ Row-cons id p j jobs (In-keep id p jobs (rw f at h))
]

keep-In :
    (id : ℕ) (p : AgentJob → Bool) (jobs : List AgentJob)
    → Row id p jobs
    → In id (ids_of (keep p jobs))
keep-In id p [] (job, m, i, t) = absurd m
keep-In id p (j ∷ jobs) (job, inl e, i, t) =
    rw (ap p (sym e) ∙ t) (inl (sym i ∙ ap (λ x. x.job_id) e))
keep-In id p (j ∷ jobs) (job, inr m, i, t) = elim (Bool-cases (p j)) [
  | inl y ↦ rw y (inr (keep-In id p jobs (job, m, i, t)))
  | inr n ↦ rw n (keep-In id p jobs (job, m, i, t))
]

pub find_job-In :
    (job : AgentJob) (jobs : List AgentJob)
    → UniqueKeys jobs
    → In job jobs
    → find_job job.job_id jobs ≡ some job
unfolding find_job
find_job-In job [] u m = absurd m
find_job-In job (j ∷ jobs) u (inl e) = rw (ap (λ x. x.job_id) e, ==_refl, e)
find_job-In job (j ∷ jobs) u (inr m) = ground (arith, find_job-In job jobs u.2 m)

length-map_ids : (jobs : List AgentJob) → length (ids_of jobs) ≡ length jobs
length-map_ids [] = refl
length-map_ids (j ∷ jobs) = ap suc (length-map_ids jobs)

pub In-find_job :
    (id : ℕ) (jobs : List AgentJob) (job : AgentJob) → find_job id jobs ≡ some job → In job jobs
unfolding find_job
In-find_job id [] job h = cc
In-find_job id (j ∷ jobs) job h = ground (arith, In-find_job id jobs job)

pub length-keep : (p : AgentJob → Bool) (jobs : List AgentJob) → length (keep p jobs) ≤ length jobs
length-keep p [] = omega arith
length-keep p (j ∷ jobs) = ground (arith, length-keep p jobs)

-- A row that a selection may take.
abbrev pub free : (ℕ → Bool) → (AgentJob → Bool) → AgentJob → Bool
free locked p job = p job && not (locked job.job_id)

module _ (locked : ℕ → Bool) (limit : ℕ) (p : AgentJob → Bool) (jobs : List AgentJob) where
  -- A selection respects its limit.
  pub length-select_ids : length (select_ids locked limit p jobs) ≤ limit
  unfolding select_ids
  length-select_ids =
      omega (arith, length-take limit (sort_ids (ids_of (keep (free locked p) jobs))))

  pub select_ids-IsAscending : IsAscending (select_ids locked limit p jobs)
  unfolding select_ids
  select_ids-IsAscending =
      take-IsAscending limit (sort_ids (ids_of (keep (free locked p) jobs)))
        (sort_ids-IsAscending (ids_of (keep (free locked p) jobs)))

  pub In-select_ids :
      (id : ℕ) → In id (select_ids locked limit p jobs) → Row id (free locked p) jobs
  unfolding select_ids
  In-select_ids id h = In-keep id (free locked p) jobs (
      In-sort_ids id (ids_of (keep (free locked p) jobs))
        (In-take id limit (sort_ids (ids_of (keep (free locked p) jobs))) h))

  pub select_ids_all :
      (id : ℕ)
      → length (keep (free locked p) jobs) ≤ limit
      → Row id (free locked p) jobs
      → In id (select_ids locked limit p jobs)
  unfolding select_ids
  select_ids_all id fits row =
      rw
        (take_all limit (sort_ids (ids_of (keep (free locked p) jobs))) (
          omega (
            arith,
            length-sort_ids (ids_of (keep (free locked p) jobs)),
            length-map_ids (keep (free locked p) jobs),
          )))
        (sort_ids-In id (ids_of (keep (free locked p) jobs)) (keep-In id (free locked p) jobs row))
