-- ===== src/Scripts/Batch/Twice.antt =====
-- What a batch leaves in the job store, and what the same page does to it once more.
use edufurther_agent_be.Base.{
  ℕ, ◌+◌, ◌≡◌, refl, sym, ap, ◌∙◌, Bool, true, false, Text, arith, inl, inr,
}
use edufurther_agent_be.Errors.{Result, ok, raise, Result-cases, ok-inj}
use edufurther_agent_be.Json.{Json, Items, nil, cons}
use edufurther_agent_be.Settings.{Settings}
use edufurther_agent_be.Runtime.Jobs.{Db}
use edufurther_agent_be.Integrations.Product.{ProductHttp, ProductSettings}
use edufurther_agent_be.Scripts.Batch.{
  Draw, Counts, submission, counted, go_on, read_item, enqueue_read, submit_item, submit_items,
  process, reported, Report, list_items, run_page,
}
use edufurther_agent_be.Scripts.Batch.Kept.{
  HasKey, key, AllSubmitted, enqueue_read-HasKey, enqueue_read-Submitted, submit_item-again,
}

abbrev pub items_length : Items → ℕ
items_length nil = 0
items_length (cons item items) = items_length items + 1

module _ (show : Json → Text) (settings : Settings) (sha256_hex : Text → Text) where
  go_on-HasKey :
      (k : Text) (rest : Counts → Db → Result Counts × Db) (c : Counts) (turn : Result Bool × Db)
      → HasKey k turn.1
      → ((c' : Counts) (db : Db) → HasKey k db → HasKey k (rest c' db).1)
      → HasKey k (go_on rest c turn).1
  unfolding go_on
  go_on-HasKey k rest c (raise exc, db) h later = h
  go_on-HasKey k rest c (ok created, db) h later = later (counted created c) db h

  submit_items-HasKey :
      (k : Text) (draws : ℕ → Draw) (i : ℕ) (items : Items) (c : Counts) (db : Db)
      → HasKey k db
      → HasKey k (submit_items show settings sha256_hex draws i items c db).1
  unfolding submit_items submit_item
  submit_items-HasKey k draws i nil c db h = h
  submit_items-HasKey k draws i (cons item items) c db h =
      go_on-HasKey k (submit_items show settings sha256_hex draws (i + 1) items) c _
        (enqueue_read-HasKey show settings sha256_hex k (draws i) db (read_item show item) h)
        (submit_items-HasKey k draws (i + 1) items)

  counted-total :
      (created : Bool) (c : Counts) (n : ℕ)
      → (counted created c).submitted + (counted created c).existing + n
        ≡ c.submitted + c.existing + (n + 1)
  unfolding counted
  counted-total true c n = omega arith
  counted-total false c n = omega arith

  -- A loop that ends well made its turn, and went on from what the turn left.
  go_on_ok :
      (rest : Counts → Db → Result Counts × Db) (c c' : Counts) (turn : Result Bool × Db) (db : Db)
      → go_on rest c turn ≡ (ok c', db)
      → (created : Bool) × (turn.0 ≡ ok created) × (rest (counted created c) turn.1 ≡ (ok c', db))
  unfolding go_on
  go_on_ok rest c c' (raise exc, d) db h =
      absurd (let bad : raise exc ≡ ok c' = ap (λ t. t.0) h in cc)
  go_on_ok rest c c' (ok created, d) db h = (created, refl, h)

  submit_items-AllSubmitted :
      (draws : ℕ → Draw) (i : ℕ) (items : Items) (c c' : Counts) (db db' : Db)
      → submit_items show settings sha256_hex draws i items c db ≡ (ok c', db')
      → AllSubmitted show settings sha256_hex items db'
        × (c'.submitted + c'.existing ≡ c.submitted + c.existing + items_length items)
  unfolding submit_items submit_item counted
  submit_items-AllSubmitted draws i nil c c' db db' h =
      let same : c ≡ c' = ok-inj c c' (ap (λ t. t.0) h) in (tt, rw (sym same) (omega arith))
  submit_items-AllSubmitted draws i (cons item items) c c' db db' h =
      let later = submit_items show settings sha256_hex draws (i + 1) items in
      let turn = enqueue_read show settings sha256_hex (draws i) db (read_item show item) in
      let (created, made, rest) = go_on_ok later c c' turn db' h in
      let (reference, source, e, made_key) =
        enqueue_read-Submitted show settings sha256_hex (draws i) db item created
          (read_item show item) refl made in
      let (others, n) =
        submit_items-AllSubmitted draws (i + 1) items (counted created c) c' turn.1 db' rest in
      let (job, found) =
        submit_items-HasKey (key show settings sha256_hex reference) draws (i + 1) items
          (counted created c) turn.1 made_key in
      let jobs : (later (counted created c) turn.1).1.jobs ≡ db'.jobs =
        ap (λ (t : Result Counts × Db). t.1.jobs) rest in
      let there : HasKey (key show settings sha256_hex reference) db' = (job, rw jobs at found) in
      (((reference, source, e, there), others), n ∙ counted-total created c (items_length items))

  submit_items-again :
      (draws : ℕ → Draw) (i : ℕ) (items : Items) (c : Counts) (db : Db)
      → AllSubmitted show settings sha256_hex items db
      → submit_items show settings sha256_hex draws i items c db
        ≡ (ok (record c { existing = c.existing + items_length items }), db)
  unfolding submit_items go_on counted
  submit_items-again draws i nil c db h =
      ap (λ (n : ℕ). (ok (record c { existing = n }), db)) (omega arith)
  submit_items-again draws i (cons item items) c db (first, others) =
      ap (λ turn. go_on (submit_items show settings sha256_hex draws (i + 1) items) c turn)
        (submit_item-again show settings sha256_hex (draws i) item db first)
      ∙ submit_items-again draws (i + 1) items (counted false c) db others
      ∙ ap (λ (n : ℕ). (ok (record c { existing = n }), db)) (omega arith)

  abbrev counts_from_zero : Counts
  counts_from_zero = record { submitted = 0; existing = 0 }

  reported_ok :
      (result : Result Counts × Db) (c : Counts) (db : Db)
      → reported show settings sha256_hex result ≡ (ok (submission c), db)
      → result ≡ (ok c, db)
  reported_ok (raise exc, d) c db h = absurd cc
  reported_ok (ok c', d) c db h =
      let same : submission c' ≡ submission c = ok-inj _ _ (ap (λ t. t.0) h) in
      let left : d ≡ db = ap (λ t. t.1) h in cc

  process-again :
      (draws draws' : ℕ → Draw) (items : Items) (c : Counts) (db db' : Db)
      → process show settings sha256_hex false draws items db ≡ (ok (submission c), db')
      → process show settings sha256_hex false draws' items db'
        ≡ (ok (submission (record { submitted = 0; existing = c.submitted + c.existing })), db')
  unfolding process
  process-again draws draws' nil c db db' h = absurd cc
  process-again draws draws' (cons item items) c db db' h =
      let (all, n) =
        submit_items-AllSubmitted draws 0 (cons item items) counts_from_zero c db db'
          (reported_ok _ c db' h) in
      ap (reported show settings sha256_hex)
        (submit_items-again draws' 0 (cons item items) counts_from_zero db' all)
      ∙ ap (λ (m : ℕ). (ok (submission (record { submitted = 0; existing = m })), db'))
          (omega (arith, n))

-- A batch that submits its page to the end and then, at any later time, is run again while the product
-- lists the same page, submits nothing the second time: it finds each item of the first run there,
-- whether that had made it or not, and leaves the job store as it is.
pub run_page_twice :
    (http : ProductHttp) (product : ProductSettings) (settings : Settings)
    (sha256_hex : Text → Text) (draws draws' : ℕ → Draw) (limit : ℕ) (db db' : Db) (c : Counts)
    → run_page http product settings sha256_hex draws limit false db ≡ (ok (submission c), db')
    → run_page http product settings sha256_hex draws' limit false db'
      ≡ (ok (submission (record { submitted = 0; existing = c.submitted + c.existing })), db')
unfolding run_page
run_page_twice http product settings sha256_hex draws draws' limit db db' c h =
    elim (Result-cases (list_items http product settings limit)) [
      | inl (exc, e) ↦ absurd (
          let bad : ◌≡◌ {A = Result Report × Db} (raise exc, db) (ok (submission c), db') =
            rw (e, run_page) at h in
          cc)
      | inr (items, e) ↦
          rw (e, run_page)
            (process-again http.show settings sha256_hex draws draws' items c db db'
              (rw (e, run_page) at h))
    ]
