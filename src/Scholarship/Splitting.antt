-- ===== src/Scholarship/Splitting.antt =====
-- `single_candidate` and `split_candidates` of src/app/usecases/scholarship_finder/nodes.py.
pub mod Candidates
use edufurther_agent_be.Base.{
  ℕ, zero, suc, ◌+◌, ◌-◌, Bool, false, ◌||◌, Option, none, some, List, [], ◌∷◌, ◌++◌, Text, lit,
  strip, drop, is_empty, length, show_nat, is_space, ltb, ◌==◌, get_or, if◌then◌else◌,
}
use edufurther_agent_be.Errors.{PyError, Result, ok, raise}
use edufurther_agent_be.Json.{Json, arr, str, obj, Items, nil, cons, Fields, end, truthy}
use edufurther_agent_be.Python.Regex.{
  Pattern, one, ◌then_◌, ◌or_◌, optionally, many, some_of, literal, matched, anywhere, is_digit,
}
use edufurther_agent_be.Tools.JinaClient.{shape_failure}
use edufurther_agent_be.Integrations.{text_of, get_value, or_value, read_items}
use edufurther_agent_be.Integrations.Router.{
  split_list_candidates, RouterResponse, usable_output, router_outcome_value, text_field,
}
use edufurther_agent_be.Scholarship.Schemas.{Candidate, has_text}
use edufurther_agent_be.Scholarship.Normalization.{Unicode, normalize_discovery}
use edufurther_agent_be.Scholarship.Prompts.{split_source_data}
use edufurther_agent_be.Scholarship.Workflow.{State, add_note, add_uncertainty}
use edufurther_agent_be.Scholarship.Asking.{Router, ask, is_router_error}

unfoldable pub max_candidates_per_page : ℕ
max_candidates_per_page = 50

abbrev up_to_three_digits : Pattern
up_to_three_digits = one is_digit then_ optionally (one is_digit then_ optionally (one is_digit))

abbrev is_separator : ℕ → Bool
is_separator c =
    (c == b'.') || (c == b')') || (c == b']') || (c == b';') || (c == b':') || (c == b'-')

-- `_LIST_ORDINAL`, at the start of a text
unfoldable pub list_ordinal : Pattern
list_ordinal =
    many is_space
    then_ ((literal (lit "#") then_ many is_space then_ up_to_three_digits then_ some_of is_space)
        or_ (up_to_three_digits then_ many is_space then_ one is_separator then_ some_of is_space))

unfoldable pub strip_list_ordinal : Text → Text
unfolding list_ordinal
strip_list_ordinal title =
    let stripped = strip (drop (matched (anywhere list_ordinal) false title) title) in
    if is_empty stripped then strip title else stripped

abbrev pub items_length : Items → ℕ
items_length nil = 0
items_length (cons item items) = suc (items_length items)

-- `items[:n]`
abbrev pub items_take : ℕ → Items → Items
items_take zero items = nil
items_take (suc n) nil = nil
items_take (suc n) (cons item items) = cons item (items_take n items)

module _ (show : Json → Text) (unicode : Unicode) where
  -- `_new_candidate` with the defaults of its other fields
  unfoldable pub new_candidate : State → Text → Candidate
  new_candidate s title = record {
    title = title;
    identity_key = (normalize_discovery unicode title none).identity_key;
    parent_source_url = s.discovery.source_url;
    parent_discovery_id = s.discovery.discovery_id;
    url = none;
    excerpt = none;
    heading = none;
    discovery_id = none;
    deterministic_facts = record {
      funding_mentions = [];
      deadline_mentions = [];
      level_mentions = [];
      eligibility_phrase = none;
    };
    model_facts = end;
    official_url = none;
    official_page_fetched = false;
    official_fetch_method = none;
    amount_agrees = none;
    deadline_agrees = none;
    contradictions = [];
    eligibility_rules = [];
    evidence = [];
    outcome = none;
    uncertainty_reasons = [];
    prompt_versions = [];
    models = [];
  }

  -- The discovery itself as a candidate.
  unfoldable pub own_candidate : State → Candidate
  unfolding new_candidate
  own_candidate s = record (new_candidate s (get_or s.discovery.raw_title [])) {
    url = some s.discovery.source_url;
    excerpt = s.discovery.raw_excerpt;
    discovery_id = some s.discovery.discovery_id;
  }

  unfoldable pub single_candidate : State → State
  unfolding own_candidate add_note
  single_candidate s =
      add_note (lit "single candidate") (record s { candidates = own_candidate s ∷ [] })

  -- The page as one candidate, with the reason for it.
  unfoldable pub unsplit : Text → State → State
  unfolding own_candidate add_uncertainty
  unsplit reason s = add_uncertainty reason (record s { candidates = own_candidate s ∷ [] })

  -- `str(item.get("title") or "")` without its ordinal
  unfoldable pub title_of : Fields → Text
  unfolding strip_list_ordinal
  title_of item =
      strip_list_ordinal (text_of show (or_value (get_value (lit "title") item) (str [])))

  unfoldable pub link_of : Fields → Option Text
  link_of item =
      let url = get_value (lit "url") item in if truthy url then some (text_of show url) else none

  unfoldable pub split_candidate : State → RouterResponse → Fields → Candidate
  unfolding new_candidate title_of link_of text_field
  split_candidate s response item = record (new_candidate s (title_of item)) {
    url = link_of item;
    excerpt = text_field (lit "excerpt") item;
    heading = text_field (lit "heading") item;
    prompt_versions = (lit "split", get_or response.prompt_version []) ∷ [];
    models = if has_text response.model then (lit "split", get_or response.model []) ∷ [] else [];
  }

  -- The comprehension over the items; an item without a title is left out.
  unfoldable pub split_items : State → RouterResponse → Items → Result (List Candidate)
  unfolding split_candidate
  split_items s response nil = ok []
  split_items s response (cons (obj item) items) = elim (split_items s response items) [
    | raise exc ↦ raise exc
    | ok rest ↦
        ok (if is_empty (title_of item) then rest else split_candidate s response item ∷ rest)
  ]
  split_items s response (cons _ items) = raise shape_failure

  unfoldable pub truncated_reason : ℕ → Text
  truncated_reason truncated =
      lit "page yielded more than "
      ++ show_nat max_candidates_per_page
      ++ lit " candidates; "
      ++ show_nat truncated
      ++ lit " not processed"

  -- The update once the candidates are there.
  unfoldable pub take_candidates : ℕ → List Candidate → State → State
  unfolding add_note add_uncertainty
  take_candidates truncated [] s =
      add_uncertainty (lit "page classified as a list but no candidates were extracted")
        (record s { candidates = [] })
  take_candidates truncated (c ∷ cs) s =
      let split =
        add_note (lit "split into " ++ show_nat (length (c ∷ cs)) ++ lit " candidates")
          (record s { candidates = c ∷ cs }) in
      if truncated == 0 then split else add_uncertainty (truncated_reason truncated) split

  -- `response.output.get("candidates") or []`, cut to the maximum
  unfoldable pub take_items : RouterResponse → Items → State → Result State
  unfolding take_candidates
  take_items response items s =
      elim (split_items s response (items_take max_candidates_per_page items)) [
        | raise exc ↦ raise exc
        | ok candidates ↦
            ok (take_candidates (items_length items - max_candidates_per_page) candidates s)
      ]

  unfoldable pub take_output : RouterResponse → Fields → State → Result State
  unfolding take_items
  take_output response output s = elim (read_items (get_value (lit "candidates") output)) [
    | raise exc ↦ raise exc
    | ok items ↦ take_items response items s
  ]

  unfoldable pub take_split : Result RouterResponse → State → Result State
  unfolding unsplit take_output
  take_split (raise exc) s =
      if is_router_error exc.kind
      then ok (unsplit (lit "list splitting failed: " ++ exc.message) s)
      else raise exc
  take_split (ok response) s = elim (usable_output response) [
    | none ↦ ok (
        unsplit
          (lit "list splitting unavailable (" ++ router_outcome_value response.outcome ++ lit ")")
          s)
    | some output ↦ take_output response output s
  ]

  unfoldable pub split_candidates : Result Router → State → Result State
  unfolding take_split
  split_candidates (raise exc) s = raise exc
  split_candidates (ok router) s =
      take_split
        (ask router split_list_candidates s (lit "split")
          (split_source_data s.discovery.source_url s.discovery.raw_title s.page_text))
        s
