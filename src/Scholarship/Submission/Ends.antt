-- ===== src/Scholarship/Submission/Ends.antt =====
-- How a session ends: with a value, or with an exception that its calls may raise.
use edufurther_agent_be.Base.{
  ◌≡◌, refl, ◌⊎◌, inl, inr, Bool, true, not, ◌&&◌, Option, none, some, List, [], ◌∷◌, ◌||◌, Text,
  lit, is_empty, Bool-cases, Option-cases,
}
use edufurther_agent_be.Errors.{PyError, Result, ok, raise}
use edufurther_agent_be.Json.{Json, Fields, truthy}
use edufurther_agent_be.Integrations.{get_value}
use edufurther_agent_be.Integrations.Product.{ProductHttp, Client, Call, post_call}
use edufurther_agent_be.Scholarship.Schemas.{Candidate, has_text}
use edufurther_agent_be.Scholarship.Workflow.{State}
use edufurther_agent_be.Scholarship.Submission.{
  Session, Send, continue, ◌>>=◌, pure, tell, asks_review, catch_finder, is_finder_error, attempt,
  attach, record_run, record_candidate_run, opened_note, request_review, review_if, submit_known,
  submit_one, submit_each, record_job_run, submit_run,
}

-- Nothing is raised, or one of these exceptions is.
pub record EndsOr {A : Type 0} (Q : PyError → Type 0) (m : Send A) : Type 0 where
  pub ended :
      (s : Session)
      → ((exc : PyError) × Q exc × ((m s).0 ≡ raise exc)) ⊎ ((a : A) × ((m s).0 ≡ ok a))

-- This is raised.
pub record Raises {A : Type 0} (exc : PyError) (m : Send A) : Type 0 where
  pub raised : (s : Session) → (m s).0 ≡ raise exc

pub pure-EndsOr : {A : Type 0} (Q : PyError → Type 0) (a : A) → EndsOr Q (pure a)
pure-EndsOr Q a = record { ended = λ s. inr (a, refl) }

continue_ends :
    {A B : Type 0} (Q : PyError → Type 0) (t : Result A × Session) (k : A → Send B)
    → ((exc : PyError) × Q exc × (t.0 ≡ raise exc)) ⊎ ((a : A) × (t.0 ≡ ok a))
    → ((a : A) → EndsOr Q (k a))
    → ((exc : PyError) × Q exc × ((continue k t).0 ≡ raise exc))
      ⊎ ((b : B) × ((continue k t).0 ≡ ok b))
continue_ends Q (ok a, s) k h later = (later a).ended s
continue_ends Q (raise exc, s) k (inl (exc', q, e)) later = inl (exc', q, cc)
continue_ends Q (raise exc, s) k (inr (a, e)) later = cc

pub bind-EndsOr :
    {A B : Type 0} (Q : PyError → Type 0) (m : Send A) (k : A → Send B)
    → EndsOr Q m
    → ((a : A) → EndsOr Q (k a))
    → EndsOr Q (m >>= k)
bind-EndsOr Q m k first later = record {
  ended = λ s. continue_ends Q (m s) k (first.ended s) later;
}

continue-Raises :
    {A B : Type 0} (exc : PyError) (t : Result A × Session) (k : A → Send B)
    → ((exc' : PyError) × (exc' ≡ exc) × (t.0 ≡ raise exc')) ⊎ ((a : A) × (t.0 ≡ ok a))
    → ((a : A) → Raises exc (k a))
    → (continue k t).0 ≡ raise exc
continue-Raises exc (ok a, s) k h later = (later a).raised s
continue-Raises exc (raise exc'', s) k (inl (exc', q, e)) later = cc
continue-Raises exc (raise exc'', s) k (inr (a, e)) later = cc

pub bind-Raises :
    {A B : Type 0} (exc : PyError) (m : Send A) (k : A → Send B)
    → EndsOr (λ exc'. exc' ≡ exc) m
    → ((a : A) → Raises exc (k a))
    → Raises exc (m >>= k)
bind-Raises exc m k first later = record {
  raised = λ s. continue-Raises exc (m s) k (first.ended s) later;
}

pub Raises-EndsOr :
    {A : Type 0} (exc : PyError) (m : Send A) → Raises exc m → EndsOr (λ exc'. exc' ≡ exc) m
Raises-EndsOr exc m h = record { ended = λ s. inl (exc, refl, h.raised s) }

continue_at_once :
    {A B : Type 0} (exc : PyError) (t : Result A × Session) (k : A → Send B)
    → t.0 ≡ raise exc
    → (continue k t).0 ≡ raise exc
continue_at_once exc (ok a, s) k h = cc
continue_at_once exc (raise exc', s) k h = cc

pub bind-Raises_first :
    {A B : Type 0} (exc : PyError) (m : Send A) (k : A → Send B)
    → Raises exc m
    → Raises exc (m >>= k)
bind-Raises_first exc m k first = record {
  raised = λ s. continue_at_once exc (m s) k (first.raised s);
}

-- What each call that is posted may come to.
abbrev pub Answered : (PyError → Type 0) → ProductHttp → Client → Type 0
Answered Q http client =
    (calls : List Call) (call : Call)
    → ((exc : PyError) × (post_call http client calls call ≡ raise exc)
        × ((is_finder_error exc.kind ≡ true) ⊎ Q exc))
      ⊎ ((body : Fields) × (post_call http client calls call ≡ ok body))

module _ (http : ProductHttp) (client : Client) (repr : Text → Text) (state : State)
    (Q : PyError → Type 0) (answered : Answered Q http client) where
  pub attempt-EndsOr :
      (call : Call) (describe : Text → Text)
      → EndsOr Q (attempt http client repr state call describe)
  unfolding attempt catch_finder tell
  attempt-EndsOr call describe = record {
    ended = λ s. elim (answered s.calls call) [
      | inr (body, e) ↦ inr (some body, rw (e, catch_finder) refl)
      | inl (exc, e, inl y) ↦ inr (none, rw (e, catch_finder, y) refl)
      | inl (exc, e, inr q) ↦ elim (Bool-cases (is_finder_error exc.kind)) [
        | inl y ↦ inr (none, rw (e, catch_finder, y) refl)
        | inr n ↦ inl (exc, q, rw (e, catch_finder, n) refl)
      ]
    ];
  }

  attach-EndsOr : (c : Candidate) → EndsOr Q (attach http client repr state c)
  unfolding attach
  attach-EndsOr c = elim (Bool-cases (is_empty c.evidence || not (has_text c.discovery_id))) [
    | inl e ↦ rw e (pure-EndsOr Q 0)
    | inr n ↦ rw n (bind-EndsOr Q _ _ (attempt-EndsOr _ _) (λ answer. pure-EndsOr Q _))
  ]

  record_run-EndsOr :
      (id outcome : Text) (body : Json) (by prompt : Option Text)
      → EndsOr Q (record_run http client repr state id outcome body by prompt)
  unfolding record_run
  record_run-EndsOr id outcome body by prompt =
      bind-EndsOr Q _ _ (attempt-EndsOr _ _) (λ answer. pure-EndsOr Q tt)

  record_candidate_run-EndsOr :
      (c : Candidate) → EndsOr Q (record_candidate_run http client repr state c)
  unfolding record_candidate_run
  record_candidate_run-EndsOr c = elim (Option-cases c.outcome) [
    | inl e ↦ rw e (pure-EndsOr Q tt)
    | inr (o, e) ↦ elim (Bool-cases (has_text c.discovery_id)) [
      | inl h ↦ rw (e, h) (record_run-EndsOr _ _ _ _ _)
      | inr n ↦ rw (e, n) (pure-EndsOr Q tt)
    ]
  ]

  opened_note-EndsOr :
      (c : Candidate) (answer : Option Fields)
      → EndsOr Q (opened_note http client repr state c answer)
  unfolding opened_note tell
  opened_note-EndsOr c none = record { ended = λ s. inr (tt, refl) }
  opened_note-EndsOr c (some result) =
      elim (Bool-cases (truthy (get_value (lit "created") result))) [
        | inl e ↦ rw (e, opened_note) (record { ended = λ s. inr (tt, refl) })
        | inr n ↦ rw (n, opened_note) (pure-EndsOr Q tt)
      ]

  review_if-EndsOr :
      (shadow : Bool) (c : Candidate) → EndsOr Q (review_if http client repr state shadow c)
  unfolding review_if request_review
  review_if-EndsOr shadow c = elim (Bool-cases (not shadow && asks_review c.outcome)) [
    | inr n ↦ rw n (pure-EndsOr Q tt)
    | inl e ↦ elim (Bool-cases (has_text c.discovery_id)) [
      | inl h ↦ rw (e, h) (bind-EndsOr Q _ _ (attempt-EndsOr _ _) (opened_note-EndsOr c))
      | inr n ↦ rw (e, n) (pure-EndsOr Q tt)
    ]
  ]

  submit_known-EndsOr :
      (shadow : Bool) (c : Candidate) → EndsOr Q (submit_known http client repr state shadow c)
  unfolding submit_known
  submit_known-EndsOr shadow c = bind-EndsOr Q _ _ (attach-EndsOr c) (λ submitted.
      bind-EndsOr Q _ _ (record_candidate_run-EndsOr c)
        (λ u. bind-EndsOr Q _ _ (review_if-EndsOr shadow c) (λ v. pure-EndsOr Q submitted)))

  submit_one-EndsOr :
      (shadow : Bool) (c : Candidate) → EndsOr Q (submit_one http client repr state shadow c)
  unfolding submit_one
  submit_one-EndsOr shadow c = elim (Bool-cases (has_text c.discovery_id)) [
    | inl e ↦ rw e (submit_known-EndsOr shadow c)
    | inr n ↦ rw n (pure-EndsOr Q 0)
  ]

  pub submit_each-EndsOr :
      (shadow : Bool) (cs : List Candidate)
      → EndsOr Q (submit_each http client repr state shadow cs)
  unfolding submit_each
  submit_each-EndsOr shadow [] = pure-EndsOr Q 0
  submit_each-EndsOr shadow (c ∷ cs) =
      bind-EndsOr Q _ _ (submit_one-EndsOr shadow c)
        (λ n. bind-EndsOr Q _ _ (submit_each-EndsOr shadow cs) (λ m. pure-EndsOr Q _))

  pub submit_run-EndsOr :
      (shadow : Bool) (cs : List Candidate) → EndsOr Q (submit_run http client repr state shadow cs)
  unfolding submit_run record_job_run
  submit_run-EndsOr shadow cs =
      bind-EndsOr Q _ _ (submit_each-EndsOr shadow cs)
        (λ n. bind-EndsOr Q _ _ (record_run-EndsOr _ _ _ _ _) (λ u. pure-EndsOr Q cs))
