-- ===== src/Scholarship/Evidence/Resumed.antt =====
-- A run that resumes behind `fetch_official`, in a process that holds no text of an official page.
use edufurther_agent_be.Base.{ℕ, ◌+◌, ◌≡◌, refl, inl, inr, List, [], ◌∷◌, Text, Bool-cases}
use edufurther_agent_be.Errors.{ok}
use edufurther_agent_be.Json.{Json}
use edufurther_agent_be.Scholarship.Schemas.{Candidate, get_text}
use edufurther_agent_be.Scholarship.Workflow.{State}
use edufurther_agent_be.Scholarship.Asking.{Router}
use edufurther_agent_be.Scholarship.Evidence.{
  join_compared, compare_one, compare_from, compared, compare_evidence,
}

module _ (show : Json → Text) (now : Text) where
  compare_one_without_text :
      (router : Router) (s : State) (index : ℕ) (c : Candidate)
      → compare_one show now router s index [] c ≡ ok c
  unfolding compare_one
  compare_one_without_text router s index c = elim (Bool-cases c.official_page_fetched) [
    | inl y ↦ rw y refl
    | inr n ↦ rw n refl
  ]

  compare_from_resumed :
      (router : Router) (s : State) (index : ℕ) (cs : List Candidate)
      → compare_from show now router s index cs [] ≡ (ok cs, [])
  unfolding compare_from get_text join_compared
  compare_from_resumed router s index [] = refl
  compare_from_resumed router s index (c ∷ cs) =
      rw (compare_from_resumed router s (index + 1) cs, compare_one_without_text router s index c)
        refl

  -- Without the texts of the official pages, the comparison leaves every candidate as it was, also those
  -- whose page was fetched, whatever the router would answer.
  pub compare_evidence_resumed :
      (router : Router) (s : State) → compare_evidence show now (ok router) s [] ≡ (ok s, [])
  unfolding compare_evidence compared
  compare_evidence_resumed router s = rw (compare_from_resumed router s 0 s.candidates) refl
