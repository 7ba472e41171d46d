-- ===== src/Scholarship/Submission/Failures.antt =====
-- What a submission survives, and what it does not: `except ScholarshipFinderError` against a body that
-- is no JSON and a transport that fails.
use edufurther_agent_be.Base.{
  ◌≡◌, refl, sym, ap, ◌∙◌, ◌⊎◌, inl, inr, Bool, true, false, some, List, ◌++◌, Text, lit, is_empty,
  keep, leb, ◌==◌, Bool-cases,
}
use edufurther_agent_be.Errors.{scholarship_finder_error, PyError, Result, ok, raise, ok-inj}
use edufurther_agent_be.Json.{Json, obj, null, bool, num, str, arr, Fields}
use edufurther_agent_be.Tools.JinaClient.{HttpResponse}
use edufurther_agent_be.Integrations.{json_object, object_body}
use edufurther_agent_be.Settings.{Settings}
use edufurther_agent_be.Integrations.Product.{
  ProductHttp, ProductSettings, Client, Call, client_from_settings, post_call, read_response,
  not_found, call_path, call_body, call_name,
}
use edufurther_agent_be.Scholarship.Schemas.{Candidate}
use edufurther_agent_be.Scholarship.Workflow.{State}
use edufurther_agent_be.Scholarship.Submission.{
  Session, pure, catch_finder, is_finder_error, attempt, is_pending, submit_candidates, record_run,
  record_job_run, submit_run, submit_all, submitted, submit_to_product,
}
use edufurther_agent_be.Scholarship.Submission.Whole.{
  start, submit_to_product_configured, submit_to_product-submission_plan,
}
use edufurther_agent_be.Scholarship.Submission.Plan.{submission_plan, submit_run-candidates}
use edufurther_agent_be.Scholarship.Submission.Ends.{
  EndsOr, Raises, bind-Raises, bind-Raises_first, Raises-EndsOr, pure-EndsOr, Answered,
  submit_each-EndsOr, submit_run-EndsOr,
}

-- The product answers each write with JSON, whatever its status.
abbrev pub AnswersJson : ProductHttp → Type 0
AnswersJson http =
    (calls : List Call) (url token : Text) (body : Json)
    → (response : HttpResponse) × (value : Json) × (http.post calls url token body ≡ ok response)
      × (response.json ≡ some value)

-- Each write fails in the transport alike.
abbrev pub AlwaysRaises : PyError → ProductHttp → Type 0
AlwaysRaises exc http =
    (calls : List Call) (url token : Text) (body : Json)
    → http.post calls url token body ≡ raise exc

-- What a call comes to, where its error can only be the client's own.
abbrev FinderOrOk : Result Fields → Type 0
FinderOrOk r =
    ((exc : PyError) × (r ≡ raise exc) × (is_finder_error exc.kind ≡ true))
    ⊎ ((body : Fields) × (r ≡ ok body))

object_body-FinderOrOk :
    (name what : Text) (show : Json → Text) (value : Json)
    → FinderOrOk (object_body scholarship_finder_error name show what (some value))
unfolding object_body
object_body-FinderOrOk name what show (obj body) = inr (body, refl)
object_body-FinderOrOk name what show null = inl (_, refl, refl)
object_body-FinderOrOk name what show (bool b) = inl (_, refl, refl)
object_body-FinderOrOk name what show (num n) = inl (_, refl, refl)
object_body-FinderOrOk name what show (str s) = inl (_, refl, refl)
object_body-FinderOrOk name what show (arr items) = inl (_, refl, refl)

json_object-FinderOrOk :
    (name what : Text) (show : Json → Text) (response : HttpResponse) (value : Json)
    → response.json ≡ some value
    → FinderOrOk (json_object scholarship_finder_error name show what response)
unfolding json_object
json_object-FinderOrOk name what show response value h =
    elim (Bool-cases (leb 400 response.status_code)) [
      | inl y ↦ rw y (inl (_, refl, refl))
      | inr n ↦ rw (n, h) (object_body-FinderOrOk name what show value)
    ]

read_response-FinderOrOk :
    (show : Json → Text) (missing what : Text) (response : HttpResponse) (value : Json)
    → response.json ≡ some value
    → FinderOrOk (read_response show missing what (ok response))
unfolding read_response not_found
read_response-FinderOrOk show missing what response value h =
    elim (Bool-cases (response.status_code == 404)) [
      | inl y ↦ rw y (inl (_, refl, refl))
      | inr n ↦
          rw n (json_object-FinderOrOk (lit "ScholarshipFinderError") what show response value h)
    ]

-- `FinderOrOk` as an answer that raises nothing else.
answered_by :
    (Q : PyError → Type 0) (r : Result Fields)
    → FinderOrOk r
    → ((exc : PyError) × (r ≡ raise exc) × ((is_finder_error exc.kind ≡ true) ⊎ Q exc))
      ⊎ ((body : Fields) × (r ≡ ok body))
answered_by Q r (inl (exc, e, y)) = inl (exc, e, inl y)
answered_by Q r (inr (body, e)) = inr (body, e)

AnswersJson-Answered :
    (http : ProductHttp) (client : Client) → AnswersJson http → Answered (λ exc. ⊥) http client
unfolding post_call
AnswersJson-Answered http client h calls call =
    let (response, value, e, j) =
      h calls (client.base_url ++ call_path call) client.token (call_body call) in
    answered_by (λ exc. ⊥) (post_call http client calls call)
      (rw e (read_response-FinderOrOk http.show _ (call_name call) response value j))

submitted_ok :
    (state : State) (t : Result (List Candidate) × Session) (cs : List Candidate)
    → t.0 ≡ ok cs
    → (final : State) × ((submitted state t).0 ≡ ok final) × (final.candidates ≡ cs)
unfolding submitted
submitted_ok state (raise exc, s) cs h = cc
submitted_ok state (ok cs', s) cs h = (_, refl, ok-inj cs' cs h)

submitted_raise :
    (state : State) (t : Result (List Candidate) × Session) (exc : PyError)
    → t.0 ≡ raise exc
    → (submitted state t).0 ≡ raise exc
unfolding submitted
submitted_raise state (raise exc', s) exc h = cc
submitted_raise state (ok cs, s) exc h = cc

module _ (http : ProductHttp) (client : Client) (repr : Text → Text) (state : State) where
  submit_all_ends :
      AnswersJson http → (submit_all http client repr state true start).0 ≡ ok state.candidates
  unfolding submit_all
  submit_all_ends h =
      elim ((submit_run-EndsOr http client repr state (λ exc. ⊥)
          (AnswersJson-Answered http client h) true state.candidates).ended
        start) [
          | inl (exc, q, e) ↦ absurd q
          | inr (cs, e) ↦
              e
              ∙ ap (λ t. ok t)
                  (sym
                    (submit_run-candidates http client repr state true state.candidates cs start e))
        ]

  module _ (exc : PyError) (other : is_finder_error exc.kind ≡ false)
      (h : AlwaysRaises exc http) where
    post_call_raises :
        (calls : List Call) (call : Call) → post_call http client calls call ≡ raise exc
    unfolding post_call read_response
    post_call_raises calls call =
        rw (h calls (client.base_url ++ call_path call) client.token (call_body call)) refl

    answered : Answered (λ exc'. exc' ≡ exc) http client
    answered calls call = inl (exc, post_call_raises calls call, inr refl)

    attempt-Raises :
        (call : Call) (describe : Text → Text)
        → Raises exc (attempt http client repr state call describe)
    unfolding attempt catch_finder
    attempt-Raises call describe = record {
      raised = λ s. rw (post_call_raises s.calls call, catch_finder, other) refl;
    }

    submit_run-Raises :
        (shadow : Bool) (cs : List Candidate)
        → Raises exc (submit_run http client repr state shadow cs)
    unfolding submit_run record_job_run record_run
    submit_run-Raises shadow cs =
        bind-Raises exc _ _
          (submit_each-EndsOr http client repr state (λ exc'. exc' ≡ exc) answered shadow cs)
          (λ n. bind-Raises_first exc _ _ (bind-Raises_first exc _ _ (attempt-Raises _ _)))

    first_candidates_raises :
        (cs : List Candidate)
        → EndsOr (λ exc'. exc' ≡ exc) (submit_candidates http client repr state cs)
    unfolding submit_candidates
    first_candidates_raises cs =
        elim (Bool-cases (is_empty (keep (is_pending http client repr state) cs))) [
          | inl e ↦ rw e (pure-EndsOr _ cs)
          | inr n ↦ rw n (Raises-EndsOr exc _ (bind-Raises_first exc _ _ (attempt-Raises _ _)))
        ]

    submit_all-Raises : (shadow : Bool) → Raises exc (submit_all http client repr state shadow)
    unfolding submit_all
    submit_all-Raises true =
        bind-Raises exc (pure state.candidates) _ (pure-EndsOr _ state.candidates)
          (submit_run-Raises true)
    submit_all-Raises false =
        bind-Raises exc _ _ (first_candidates_raises state.candidates) (submit_run-Raises false)

-- In shadow mode, where the product is configured and answers each write with JSON, whatever status and
-- value that has, the submission ends, the candidates stay as they were, and the calls made are those of
-- the plan, of which the run of the job's own discovery is the last.
pub submit_to_product_recorded :
    (settings : Settings) (product : ProductSettings) (http : ProductHttp) (repr : Text → Text)
    (state : State) (client : Client)
    → settings.shadow_mode ≡ true
    → client_from_settings product ≡ ok client
    → AnswersJson http
    → ((submit_to_product settings product http repr state).1
        ≡ submission_plan http client repr state true state.candidates)
      × (final : State) × ((submit_to_product settings product http repr state).0 ≡ ok final)
      × (final.candidates ≡ state.candidates)
submit_to_product_recorded settings product http repr state client shadow configured h =
    let ran = submit_all_ends http client repr state h in
    let there = submit_to_product_configured settings product http repr state client configured in
    let (final, e, same) =
      submitted_ok state (submit_all http client repr state true start) state.candidates ran in
    let ended : (submit_to_product settings product http repr state).0 ≡ ok final =
      ap (λ t. t.0) there ∙ rw shadow e in
    (
      submit_to_product-submission_plan settings product http repr state final client configured
            ended
          ∙ rw (shadow, same) refl,
      final,
      ended,
      same,
    )

-- Where every write fails in the transport with an error that is not the client's own, a submission to a
-- configured product raises that error, in either mode.
pub submit_to_product_raises :
    (settings : Settings) (product : ProductSettings) (http : ProductHttp) (repr : Text → Text)
    (state : State) (client : Client) (exc : PyError)
    → client_from_settings product ≡ ok client
    → is_finder_error exc.kind ≡ false
    → AlwaysRaises exc http
    → (submit_to_product settings product http repr state).0 ≡ raise exc
submit_to_product_raises settings product http repr state client exc configured other h =
    ap (λ t. t.0) (submit_to_product_configured settings product http repr state client configured)
    ∙ submitted_raise state (submit_all http client repr state settings.shadow_mode start) exc
        ((submit_all-Raises http client repr state exc other h settings.shadow_mode).raised start)
