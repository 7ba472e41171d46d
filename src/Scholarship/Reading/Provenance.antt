-- ===== src/Scholarship/Reading/Provenance.antt =====
-- What the loop of `extract_facts` leaves of each candidate, and what ends it.
use edufurther_agent_be.Base.{
  ℕ, ◌+◌, ◌≡◌, refl, sym, ap, ◌∙◌, ◌⊎◌, inl, inr, true, false, none, some, List, [], ◌∷◌, ◌++◌,
  Text, lit, text_eq, text_eq_refl, text_eq→eq, show_nat, length, get_or, Bool-cases, Option-cases,
  arith,
}
use edufurther_agent_be.Errors.{PyError, Result, ok, raise, ok-inj}
use edufurther_agent_be.Json.{Fields, end}
use edufurther_agent_be.Integrations.Router.{
  extract_scholarship_facts, RouterResponse, usable_output, router_outcome_value, object_field,
}
use edufurther_agent_be.Scholarship.Schemas.{Candidate, has_text, get_text, set_text}
use edufurther_agent_be.Scholarship.Extraction.{extract_candidate_facts}
use edufurther_agent_be.Scholarship.Prompts.{extract_source_data}
use edufurther_agent_be.Scholarship.Sources.{add_reason}
use edufurther_agent_be.Scholarship.Workflow.{State}
use edufurther_agent_be.Scholarship.Asking.{Router, ask, is_router_error, note_provenance}
use edufurther_agent_be.Scholarship.Reading.{
  join_turn, each_from, with_candidates, with_read_facts, take_facts, extract_one, extract_facts,
}

pub get_text-set_text :
    (key value : Text) (d : List (Text × Text)) → get_text key (set_text key value d) ≡ some value
unfolding get_text set_text
get_text-set_text key value [] = rw (text_eq_refl key) refl
get_text-set_text key value ((k, v) ∷ d) = elim (Bool-cases (text_eq k key)) [
  | inl y ↦ rw (y, y) refl
  | inr n ↦ rw (n, n) (get_text-set_text key value d)
]

join_turn_ok :
    (first : Result Candidate) (rest : Result (List Candidate)) (ds : List Candidate)
    → join_turn first rest ≡ ok ds
    → (c : Candidate) × (cs : List Candidate) × (first ≡ ok c) × (rest ≡ ok cs) × (c ∷ cs ≡ ds)
unfolding join_turn
join_turn_ok (raise exc) rest ds h = cc
join_turn_ok (ok c) (raise exc) ds h = cc
join_turn_ok (ok c) (ok cs) ds h = (c, cs, refl, refl, ok-inj (c ∷ cs) ds h)

-- A relation between the candidates of two lists at each index.
abbrev pub Indexed :
    (ℕ → Candidate → Candidate → Type 0) → ℕ → List Candidate → List Candidate → Type 0
Indexed R index [] [] = Unit
Indexed R index (c ∷ cs) (d ∷ ds) = R index c d × Indexed R (index + 1) cs ds
Indexed R index _ _ = ¬ Unit

module _ (R : ℕ → Candidate → Candidate → Type 0) (turn : ℕ → Candidate → Result Candidate)
    (turned : (index : ℕ) (c c' : Candidate) → turn index c ≡ ok c' → R index c c') where
  pub each_from-Indexed :
      (index : ℕ) (cs ds : List Candidate) → each_from turn index cs ≡ ok ds → Indexed R index cs ds
  unfolding each_from
  each_from-Indexed index [] ds h = rw (sym (ok-inj [] ds h)) tt
  each_from-Indexed index (c ∷ cs) ds h =
      let (c', cs', e, f, same) =
        join_turn_ok (turn index c) (each_from turn (index + 1) cs) ds h in
      rw (sym same) (turned index c c' e, each_from-Indexed (index + 1) cs cs' f)

join_turn_raises :
    (first : Result Candidate) (rest : Result (List Candidate)) (exc : PyError)
    → (first ≡ raise exc) ⊎ (rest ≡ raise exc)
    → (exc' : PyError) × (join_turn first rest ≡ raise exc')
unfolding join_turn
join_turn_raises (raise exc') rest exc h = (exc', refl)
join_turn_raises (ok c) (raise exc') exc h = (exc', refl)
join_turn_raises (ok c) (ok cs) exc (inl e) = cc
join_turn_raises (ok c) (ok cs) exc (inr e) = cc

-- What ends one turn ends the loop, with the exception of some turn.
pub each_from_raises :
    (turn : ℕ → Candidate → Result Candidate) (index : ℕ) (before after : List Candidate)
    (c : Candidate) (exc : PyError)
    → turn (index + length before) c ≡ raise exc
    → (exc' : PyError) × (each_from turn index (before ++ c ∷ after) ≡ raise exc')
unfolding each_from
each_from_raises turn index [] after c exc h =
    let same : index ≡ index + 0 = omega arith in
    join_turn_raises (turn index c) (each_from turn (index + 1) after) exc
      (inl (ap (λ n. turn n c) same ∙ h))
each_from_raises turn index (b ∷ before) after c exc h =
    let same : index + 1 + length before ≡ index + length (b ∷ before) = omega arith in
    let (exc', e) =
      each_from_raises turn (index + 1) before after c exc (ap (λ n. turn n c) same ∙ h) in
    join_turn_raises (turn index b) (each_from turn (index + 1) (before ++ c ∷ after)) exc' (inr e)

pub get_text-set_other :
    (key other value : Text) (d : List (Text × Text))
    → text_eq key other ≡ false
    → get_text other (set_text key value d) ≡ get_text other d
unfolding get_text set_text
get_text-set_other key other value [] n = rw n refl
get_text-set_other key other value ((k, v) ∷ d) n = elim (Bool-cases (text_eq k key)) [
  | inl y ↦ rw (text_eq→eq k key y, text_eq_refl key, get_text, n) refl
  | inr m ↦ rw (m, get_text, get_text-set_other key other value d n) refl
]

-- A candidate as it is but for what is read off its own text and one reason more.
abbrev pub ReadWith : Candidate → Text → Candidate → Type 0
ReadWith c reason c' = c' ≡ record c {
  deterministic_facts = extract_candidate_facts c.title c.excerpt;
  uncertainty_reasons = c.uncertainty_reasons ++ reason ∷ [];
}

-- Records of the step `extract` with this entry, and of the other steps as they were.
abbrev pub Noted : Text → List (Text × Text) → List (Text × Text) → Type 0
Noted value d d' =
    (get_text (lit "extract") d' ≡ some value)
    × ((step : Text) → text_eq (lit "extract") step ≡ false → get_text step d' ≡ get_text step d)

-- What an answer with some output makes of a candidate: the facts in it, the prompt's version and, where
-- the answer names one, the model.
abbrev pub Answered : RouterResponse → Fields → Candidate → Candidate → Type 0
Answered response output c c' =
    (c' ≡ record c {
      deterministic_facts = extract_candidate_facts c.title c.excerpt;
      model_facts = get_or (object_field (lit "candidate") output) end;
      prompt_versions = c'.prompt_versions;
      models = c'.models;
    })
    × Noted (get_or response.prompt_version []) c.prompt_versions c'.prompt_versions
    × (((has_text response.model ≡ true) × Noted (get_or response.model []) c.models c'.models)
        ⊎ ((has_text response.model ≡ false) × (c'.models ≡ c.models)))

-- A candidate with what is made of the router's answer on it.
abbrev pub Described : Result RouterResponse → Candidate → Candidate → Type 0
Described answer c c' =
    ((reason : Text) × ReadWith c reason c'
      × (((exc : PyError) × (answer ≡ raise exc) × (is_router_error exc.kind ≡ true))
          ⊎ ((response : RouterResponse) × (answer ≡ ok response)
              × (usable_output response ≡ none))))
    ⊎ ((response : RouterResponse) × (output : Fields) × (answer ≡ ok response)
        × (usable_output response ≡ some output)
        × Answered response output c c')

-- What the router answers when it is asked for the facts of a candidate.
abbrev pub facts_answer : Router → State → ℕ → Candidate → Result RouterResponse
facts_answer router s index c =
    ask router extract_scholarship_facts s (lit "extract:" ++ show_nat index)
      (extract_source_data c.title c.excerpt none)

set_text-Noted :
    (value : Text) (d : List (Text × Text)) → Noted value d (set_text (lit "extract") value d)
set_text-Noted value d = (
  get_text-set_text (lit "extract") value d,
  λ step n. get_text-set_other (lit "extract") step value d n,
)

note_provenance-Answered :
    (response : RouterResponse) (output : Fields) (c : Candidate)
    → Answered response output c (
        note_provenance (lit "extract") response (record (with_read_facts c) {
          model_facts = get_or (object_field (lit "candidate") output) end;
        }))
unfolding note_provenance with_read_facts
note_provenance-Answered response output c = (
  refl,
  set_text-Noted (get_or response.prompt_version []) c.prompt_versions,
  elim (Bool-cases (has_text response.model)) [
    | inl y ↦ inl (y, rw y (set_text-Noted (get_or response.model []) c.models))
    | inr n ↦ inr (n, rw n refl)
  ],
)

add_reason-ReadWith :
    (reason : Text) (c : Candidate) → ReadWith c reason (add_reason reason (with_read_facts c))
unfolding add_reason with_read_facts
add_reason-ReadWith reason c = refl

take_facts-Described :
    (c c' : Candidate) (answer : Result RouterResponse)
    → take_facts (with_read_facts c) answer ≡ ok c'
    → Described answer c c'
unfolding take_facts
take_facts-Described c c' (raise exc) h = elim (Bool-cases (is_router_error exc.kind)) [
  | inl y ↦ inl (
    lit "fact extraction failed: " ++ exc.message,
    rw (sym (ok-inj _ c' (rw (y, take_facts) at h))) (add_reason-ReadWith _ c),
    inl (exc, refl, y),
  )
  | inr n ↦ absurd (ground (arith, n))
]
take_facts-Described c c' (ok response) h = elim (Option-cases (usable_output response)) [
  | inl e ↦ inl (
    lit "fact extraction unavailable (" ++ router_outcome_value response.outcome ++ lit ")",
    rw (sym (ok-inj _ c' (rw (e, take_facts) at h))) (add_reason-ReadWith _ c),
    inr (response, refl, e),
  )
  | inr (output, e) ↦ inr (
    response,
    output,
    refl,
    e,
    rw (sym (ok-inj _ c' (rw (e, take_facts) at h))) (note_provenance-Answered response output c),
  )
]

with_candidates_ok :
    (s s' : State) (r : Result (List Candidate))
    → with_candidates s r ≡ ok s'
    → r ≡ ok s'.candidates
unfolding with_candidates
with_candidates_ok s s' (raise exc) h = cc
with_candidates_ok s s' (ok cs) h = ap (λ t. ok t) (ap (λ t. t.candidates) (ok-inj _ s' h))

-- Where the facts are extracted, every candidate keeps its place and is asked for under its index. Where
-- the router's answer to that is its own error or has no output, the candidate's facts are read off its
-- own text, a reason is added and nothing else changes. Otherwise its facts are read too, what the model
-- found in that answer replaces what was there, the answer's prompt version is on record for this step
-- and, where the answer names one, its model; the records of other steps and all else stay.
pub extract_facts-Described :
    (router : Router) (s s' : State)
    → extract_facts (ok router) s ≡ ok s'
    → Indexed
        (λ index c c'. Described (facts_answer router s index c) c c')
        0
        s.candidates
        s'.candidates
unfolding extract_facts extract_one
extract_facts-Described router s s' h =
    each_from-Indexed (λ index c c'. Described (facts_answer router s index c) c c')
      (extract_one router s)
      (λ index c c' e. take_facts-Described c c' (facts_answer router s index c) e) 0 s.candidates
      s'.candidates (with_candidates_ok s s' (each_from (extract_one router s) 0 s.candidates) h)

with_candidates_raises :
    (s : State) (r : Result (List Candidate)) (exc : PyError)
    → r ≡ raise exc
    → with_candidates s r ≡ raise exc
unfolding with_candidates
with_candidates_raises s (raise exc') exc h = cc
with_candidates_raises s (ok cs) exc h = cc

extract_one_raises :
    (router : Router) (s : State) (index : ℕ) (c : Candidate) (exc : PyError)
    → ask router extract_scholarship_facts s
        (lit "extract:" ++ show_nat index)
        (extract_source_data c.title c.excerpt none)
      ≡ raise exc
    → is_router_error exc.kind ≡ false
    → extract_one router s index c ≡ raise exc
unfolding extract_one take_facts
extract_one_raises router s index c exc h other = rw (h, extract_one, take_facts, other) refl

-- Where the model call for one candidate of a page fails with an error that is not the router's own, as
-- a transport failure is, the node raises, whatever came of the candidates before it.
pub extract_facts_raises :
    (router : Router) (s : State) (before after : List Candidate) (c : Candidate) (exc : PyError)
    → s.candidates ≡ before ++ c ∷ after
    → ask router extract_scholarship_facts s
        (lit "extract:" ++ show_nat (length before))
        (extract_source_data c.title c.excerpt none)
      ≡ raise exc
    → is_router_error exc.kind ≡ false
    → (exc' : PyError) × (extract_facts (ok router) s ≡ raise exc')
unfolding extract_facts
extract_facts_raises router s before after c exc there failed other =
    let same : 0 + length before ≡ length before = omega arith in
    let (exc', e) = each_from_raises (extract_one router s) 0 before after c exc (
      ap (λ n. extract_one router s n c) same
      ∙ extract_one_raises router s (length before) c exc failed other) in
    (exc', with_candidates_raises s _ exc' (ap (each_from (extract_one router s) 0) there ∙ e))
