-- ===== src/Scholarship/Submission/Whole.antt =====
-- The whole node of src/app/usecases/scholarship_finder/submission.py, once the product is configured.
use edufurther_agent_be.Base.{◌≡◌, refl, sym, ap, ◌∙◌, List, [], Text, arith}
use edufurther_agent_be.Errors.{Result, ok, raise}
use edufurther_agent_be.Settings.{Settings}
use edufurther_agent_be.Integrations.Product.{
  ProductHttp, ProductSettings, Client, client_from_settings,
}
use edufurther_agent_be.Scholarship.Schemas.{Candidate}
use edufurther_agent_be.Scholarship.Workflow.{State}
use edufurther_agent_be.Scholarship.Submission.{Session, submit_all, submitted, submit_to_product}
use edufurther_agent_be.Scholarship.Submission.Plan.{submission_plan, submit_all-calls}

submitted-calls :
    (state final : State) (t : Result (List Candidate) × Session)
    → (submitted state t).0 ≡ ok final
    → (t.0 ≡ ok final.candidates) × ((submitted state t).1 ≡ t.1.calls)
unfolding submitted
submitted-calls state final (raise exc, s) h = cc
submitted-calls state final (ok cs, s) h = ground arith

abbrev pub start : Session
start = record { calls = []; notes = [] }

pub submit_to_product_configured :
    (settings : Settings) (product : ProductSettings) (http : ProductHttp) (repr : Text → Text)
    (state : State) (client : Client)
    → client_from_settings product ≡ ok client
    → submit_to_product settings product http repr state
      ≡ submitted state (submit_all http client repr state settings.shadow_mode start)
unfolding submit_to_product
submit_to_product_configured settings product http repr state client h =
    rw (h, submit_to_product) refl

-- Where the product is configured, a submission that raises nothing made exactly the calls of the
-- plan, in its order, whatever the product answered: outside shadow mode one batch of the candidates
-- with a title and without a discovery, where there are any; for each candidate that has a discovery
-- by then its evidence if any, its run if it has an outcome, and outside shadow mode a review where
-- the outcome requires one; and last the run of the job's own discovery.
pub submit_to_product-submission_plan :
    (settings : Settings) (product : ProductSettings) (http : ProductHttp) (repr : Text → Text)
    (state final : State) (client : Client)
    → client_from_settings product ≡ ok client
    → (submit_to_product settings product http repr state).0 ≡ ok final
    → (submit_to_product settings product http repr state).1
      ≡ submission_plan http client repr state settings.shadow_mode final.candidates
submit_to_product-submission_plan settings product http repr state final client configured h =
    let there = submit_to_product_configured settings product http repr state client configured in
    let (ended, same) =
      submitted-calls state final (submit_all http client repr state settings.shadow_mode start)
        (ap (λ t. t.0) (sym there) ∙ h) in
    ap (λ t. t.1) there
    ∙ same
    ∙ submit_all-calls http client repr state settings.shadow_mode final.candidates start ended
