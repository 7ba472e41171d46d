-- ===== src/Scholarship/Loading/Classes.antt =====
-- The classes that a page can come out of `classify_page` with.
use edufurther_agent_be.Base.{
  ◌≡◌, refl, sym, ap, ◌∙◌, ◌⊎◌, inl, inr, true, some, Text, lit, text_eq_refl, contains_text,
  Bool-cases, Option-cases, arith,
}
use edufurther_agent_be.Errors.{PyError, Result, ok, raise, Result-cases, ok-inj}
use edufurther_agent_be.Json.{Json, Fields}
use edufurther_agent_be.Integrations.{text_of, get_value}
use edufurther_agent_be.Integrations.Router.{classify_source_page, RouterResponse, usable_output}
use edufurther_agent_be.Scholarship.Schemas.{individual, page_type_value}
use edufurther_agent_be.Scholarship.Prompts.{classify_source_data}
use edufurther_agent_be.Scholarship.Workflow.{State}
use edufurther_agent_be.Scholarship.Asking.{Router, ask, page_provenance}
use edufurther_agent_be.Scholarship.Loading.{
  page_types, fall_back_to_individual, take_page_type, take_class, classify_page,
}

-- The router's answer on the page of a state.
abbrev pub class_answer : Router → State → Result RouterResponse
class_answer router s =
    ask router classify_source_page s (lit "classify")
      (classify_source_data s.discovery.raw_title s.discovery.raw_excerpt s.page_text)

module _ (show : Json → Text) (repr : Text → Text) where
  individual_known : contains_text (page_type_value individual) (page_types show) ≡ true
  unfolding contains_text page_types
  individual_known = rw (text_eq_refl (page_type_value individual)) refl

  fall_back_to_individual-page_type :
      (reason : Text) (s : State)
      → (fall_back_to_individual show reason s).page_type ≡ page_type_value individual
  unfolding fall_back_to_individual
  fall_back_to_individual-page_type reason s = refl

  -- What is claimed of the page type that a text leads to.
  abbrev Follows : Text → State → Type 0
  Follows page_type s =
      (contains_text s.page_type (page_types show) ≡ true)
      × ((s.page_type ≡ page_type_value individual) ⊎ (s.page_type ≡ page_type))

  take_page_type-Follows :
      (page_type : Text) (s : State) → Follows page_type (take_page_type show repr page_type s)
  unfolding take_page_type
  take_page_type-Follows page_type s =
      elim (Bool-cases (contains_text page_type (page_types show))) [
        | inl y ↦ rw y (y, inr refl)
        | inr n ↦ rw n (individual_known, inl refl)
      ]

  -- What is claimed of the page type that a response leads to.
  abbrev Answers : RouterResponse → State → Type 0
  Answers response s =
      (contains_text s.page_type (page_types show) ≡ true)
      × ((s.page_type ≡ page_type_value individual)
          ⊎ ((output : Fields) × (usable_output response ≡ some output)
              × (s.page_type ≡ text_of show (get_value (lit "page_type") output))))

  Follows-Answers :
      (response : RouterResponse) (output : Fields) (s : State)
      → usable_output response ≡ some output
      → Follows (text_of show (get_value (lit "page_type") output)) s
      → Answers response s
  Follows-Answers response output s e (known, inl i) = (known, inl i)
  Follows-Answers response output s e (known, inr p) = (known, inr (output, e, p))

  take_class-Answers :
      (response : RouterResponse) (s : State) → Answers response (take_class show repr response s)
  unfolding take_class
  take_class-Answers response s = elim (Option-cases (usable_output response)) [
    | inl e ↦ rw (e, take_class) (individual_known, inl refl)
    | inr (output, e) ↦
        let follows =
          take_page_type-Follows (text_of show (get_value (lit "page_type") output)) s in
        Follows-Answers response output (take_class show repr response s) e
          (rw (e, take_class) follows)
  ]

  page_provenance-page_type :
      (response : RouterResponse) (s : State) → (page_provenance response s).page_type ≡ s.page_type
  unfolding page_provenance
  page_provenance-page_type response s = refl

  classify_page_ok :
      (router : Router) (s : State) (response : RouterResponse)
      → class_answer router s ≡ ok response
      → classify_page show repr (ok router) s
        ≡ ok (page_provenance response (take_class show repr response s))
  unfolding classify_page
  classify_page_ok router s response e = rw (e, classify_page) refl

  classify_page_raises :
      (router : Router) (s : State) (exc : PyError)
      → class_answer router s ≡ raise exc
      → classify_page show repr (ok router) s ≡ raise exc
  unfolding classify_page
  classify_page_raises router s exc e = rw (e, classify_page) refl

  -- What is claimed of a state that was classified.
  abbrev Classified : Router → State → State → Type 0
  Classified router s s' =
      (contains_text s'.page_type (page_types show) ≡ true)
      × ((s'.page_type ≡ page_type_value individual)
          ⊎ ((response : RouterResponse) × (output : Fields) × (class_answer router s ≡ ok response)
              × (usable_output response ≡ some output)
              × (s'.page_type ≡ text_of show (get_value (lit "page_type") output))))

  Answers-Classified :
      (router : Router) (s t s' : State) (response : RouterResponse)
      → t.page_type ≡ s'.page_type
      → class_answer router s ≡ ok response
      → Answers response t
      → Classified router s s'
  Answers-Classified router s t s' response same e (known, inl i) =
      (rw (sym same) known, inl (sym same ∙ i))
  Answers-Classified router s t s' response same e (known, inr (output, u, p)) =
      (rw (sym same) known, inr (response, output, e, u, sym same ∙ p))

  -- Where a page is classified, its type is one of the four, whatever the router answers; and another
  -- type than `individual` is the one that a completed answer with some output gives.
  pub classify_page_known :
      (router : Router) (s s' : State)
      → classify_page show repr (ok router) s ≡ ok s'
      → (contains_text s'.page_type (page_types show) ≡ true)
        × ((s'.page_type ≡ page_type_value individual)
            ⊎ ((response : RouterResponse) × (output : Fields) × (class_answer router s
                  ≡ ok response)
                × (usable_output response ≡ some output)
                × (s'.page_type ≡ text_of show (get_value (lit "page_type") output))))
  classify_page_known router s s' h = elim (Result-cases (class_answer router s)) [
    | inl (exc, e) ↦ absurd (ground (arith, classify_page_raises router s exc e))
    | inr (response, e) ↦
        let t = take_class show repr response s in
        let same : page_provenance response t ≡ s' =
          ok-inj (page_provenance response t) s' (sym (classify_page_ok router s response e) ∙ h) in
        Answers-Classified router s t s' response
          (sym (page_provenance-page_type response t) ∙ ap (λ u. u.page_type) same) e
          (take_class-Answers response s)
  ]
