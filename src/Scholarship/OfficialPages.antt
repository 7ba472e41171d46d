-- ===== src/Scholarship/OfficialPages.antt =====
-- `fetch_official` of src/app/usecases/scholarship_finder/nodes.py. `Texts` is the part of
-- `_official_text` that belongs to the job, by identity key.
pub mod Isolation
use edufurther_agent_be.Base.{
  ℕ, Bool, true, Option, none, some, List, [], ◌∷◌, ◌++◌, Text, lit, take, get_or, if◌then◌else◌,
  not,
}
use edufurther_agent_be.Errors.{PyError, Result, ok, raise}
use edufurther_agent_be.Settings.{Settings}
use edufurther_agent_be.Tools.Budget.{Usage}
use edufurther_agent_be.Tools.DirectFetch.{Network}
use edufurther_agent_be.Tools.Retrieval.{Jina, RetrievedPage, fetch_official_page}
use edufurther_agent_be.Scholarship.Schemas.{
  Candidate, Evidence, official_page, explicit, has_text, set_text,
}
use edufurther_agent_be.Scholarship.Sources.{add_reason}
use edufurther_agent_be.Scholarship.Workflow.{method_value}

abbrev pub Texts : Type 0
Texts = List (Text × Text)

unfoldable pub page_evidence : Text → Text → RetrievedPage → Evidence
page_evidence now url page = record {
  claim_path = lit "source.official_page";
  value = url;
  source_url = url;
  source_type = official_page;
  observed_at = now;
  excerpt = some (take 500 page.text);
  fetch_method = some (method_value page.fetch_method);
  confidence = some explicit;
}

-- The candidate once its page was read.
unfoldable pub with_page : Text → Text → RetrievedPage → Candidate → Candidate
unfolding page_evidence
with_page now url page c = record c {
  official_page_fetched = true;
  official_fetch_method = some (method_value page.fetch_method);
  evidence = c.evidence ++ page_evidence now url page ∷ [];
}

unfoldable pub fetch_failure : PyError → Text
fetch_failure exc = lit "official page fetch failed: " ++ exc.message

-- What one turn of the loop leaves.
pub record Fetched : Type 0 where
  pub candidate : Candidate
  pub texts : Texts
  pub usage : Usage

module _ (settings : Settings) (api : Jina) (net : Network) (period : Text) (approved : List Text)
    (now : Text) where
  -- What is made of the answer of `fetch_official_page`; whatever it raises is a reason.
  unfoldable pub take_page : Text → Candidate → Texts → Result RetrievedPage × Usage → Fetched
  unfolding with_page fetch_failure add_reason
  take_page url c texts (raise exc, usage) = record {
    candidate = add_reason (fetch_failure exc) c;
    texts = texts;
    usage = usage;
  }
  take_page url c texts (ok page, usage) = record {
    candidate = with_page now url page c;
    texts = set_text c.identity_key page.text texts;
    usage = usage;
  }

  -- One turn of the loop.
  unfoldable pub fetch_one : Candidate → Texts → Usage → Fetched
  unfolding take_page
  fetch_one c texts usage =
      let url = get_or c.official_url [] in
      if not (has_text c.official_url)
      then record { candidate = c; texts = texts; usage = usage }
      else take_page url c texts
          (fetch_official_page settings api net period approved true url usage)

  unfoldable pub fetch_official : List Candidate → Texts → Usage → List Candidate × Texts × Usage
  unfolding fetch_one
  fetch_official [] texts usage = ([], texts, usage)
  fetch_official (c ∷ cs) texts usage =
      let turn = fetch_one c texts usage in
      let (rest, final_texts, final_usage) = fetch_official cs turn.texts turn.usage in
      (turn.candidate ∷ rest, final_texts, final_usage)
