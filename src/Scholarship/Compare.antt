-- ===== src/Scholarship/Compare.antt =====
-- The comparison of a candidate's facts with its official page: `_compare_sets`, `_settle_agreement`
-- and their helpers in src/app/usecases/scholarship_finder/nodes.py.
pub mod Sets
pub mod Agreement
pub mod Rejection
use edufurther_agent_be.Base.{
  ℕ, Bool, true, false, not, ◌&&◌, Option, none, some, List, [], ◌∷◌, ◌++◌, Text, lit, text_eq,
  contains_text, is_empty, get_or, show_nat, if◌then◌else◌,
}
use edufurther_agent_be.Json.{
  Json, null, bool, num, str, arr, obj, Items, nil, cons, Fields, get_field, truthy,
}
use edufurther_agent_be.Scholarship.Schemas.{
  Candidate, Evidence, Facts, official_page, Confidence, explicit, model_extracted, has_text,
}
use edufurther_agent_be.Scholarship.FactMatching.{amounts_match, deadlines_match}

abbrev pub Comparator : Type 0
Comparator = Text → Text → Option Bool

-- `comparator(r, o) is True`
abbrev pub agrees_with : Option Bool → Bool
agrees_with (some true) = true
agrees_with _ = false

-- The inner loop: the first official value that agrees with a reported one.
unfoldable pub find_match : Comparator → Text → List Text → Option Text
find_match comparator r [] = none
find_match comparator r (o ∷ os) =
    if agrees_with (comparator r o) then some o else find_match comparator r os

abbrev or_match : Option Text → Option Text → Option Text
or_match none b = b
or_match (some a) b = some a

-- Both loops.
unfoldable pub find_any_match : Comparator → List Text → List Text → Option Text
unfolding find_match
find_any_match comparator [] official = none
find_any_match comparator (r ∷ rs) official =
    or_match (find_match comparator r official) (find_any_match comparator rs official)

-- What is left where nothing matched: one value on each side can contradict, anything else is unclear.
unfoldable pub compare_single : Comparator → List Text → List Text → Option Bool × Option Text
compare_single comparator (r ∷ []) (o ∷ []) = (comparator r o, some o)
compare_single comparator _ _ = (none, none)

-- `_compare_sets`
unfoldable pub compare_sets : Comparator → List Text → List Text → Option Bool × Option Text
unfolding find_any_match compare_single
compare_sets comparator reported official =
    if is_empty reported
    then (none, none)
    else if is_empty official
    then (none, none)
    else elim (find_any_match comparator reported official) [
      | some o ↦ (some true, some o)
      | none ↦ compare_single comparator reported official
    ]

-- `_values`: the distinct mentions in order; `seen` holds those met so far.
unfoldable pub values_from : List Text → List Text → List Text
values_from seen [] = seen
values_from seen (m ∷ mentions) =
    values_from (if not (is_empty m) && not (contains_text m seen) then seen ++ m ∷ [] else seen)
      mentions

unfoldable pub values : List Text → List Text
unfolding values_from
values mentions = values_from [] mentions

-- `_agreement`: the comparison of the first mentions alone, which no node calls.
unfoldable pub first : List Text → Option Text
first [] = none
first (x ∷ xs) = some x

unfoldable pub agreement : List Text → List Text → Comparator → Option Bool
unfolding first
agreement reported official comparator = elim (first reported) [
  | none ↦ none
  | some r ↦ elim (first official) [ none ↦ none | some o ↦ comparator r o ]
]

-- The strings that the model located, per claim.
abbrev pub Pairs : Type 0
Pairs = List (Text × Option Text × Option Text)

-- `pairs.get(claim, (None, None))`, where the entry that was set last counts
unfoldable pub get_pair : Text → Pairs → Option Text × Option Text
get_pair claim [] = (none, none)
get_pair claim ((k, r, o) ∷ pairs) = if text_eq k claim then (r, o) else get_pair claim pairs

-- `str(value) if isinstance(value, str | int | float) else None`
unfoldable pub scalar_text : Option Json → Option Text
scalar_text none = none
scalar_text (some (str s)) = some s
scalar_text (some (num n)) = some (show_nat n)
scalar_text (some (bool true)) = some (lit "True")
scalar_text (some (bool false)) = some (lit "False")
scalar_text (some null) = none
scalar_text (some (arr xs)) = none
scalar_text (some (obj fs)) = none

-- `str(value or "")` of a field; what is neither a text nor a number has no claim path.
unfoldable pub text_or_empty : Option Json → Text
text_or_empty (some (str s)) = s
text_or_empty (some (num n)) = if truthy (num n) then show_nat n else []
text_or_empty (some (bool true)) = lit "True"
text_or_empty _ = []

-- One turn of the loop over `comparisons`; an item that is no object is passed over.
unfoldable pub add_pair : Json → Pairs → Pairs
unfolding text_or_empty scalar_text
add_pair (obj item) pairs =
    let claim = text_or_empty (get_field (lit "claim_path") item) in
    if is_empty claim
    then pairs
    else (
      claim,
      scalar_text (get_field (lit "reported_value") item),
      scalar_text (get_field (lit "official_value") item),
    )
      ∷ pairs
add_pair _ pairs = pairs

unfoldable pub add_pairs : Items → Pairs → Pairs
unfolding add_pair
add_pairs nil pairs = pairs
add_pairs (cons item items) pairs = add_pairs items (add_pair item pairs)

-- The items of a list; the router holds a completed answer to its task's shape, so no other value
-- stands where the code walks a list.
abbrev pub items_of : Option Json → Items
items_of (some (arr xs)) = xs
items_of _ = nil

-- `_model_value_pairs`
unfoldable pub model_value_pairs : Fields → Pairs
unfolding add_pairs
model_value_pairs output = add_pairs (items_of (get_field (lit "comparisons") output)) []

-- A claim with the values that were read on both sides and the function that compares them.
pub record Claim : Type 0 where
  pub path : Text
  pub reported : List Text
  pub official : List Text
  pub comparator : Comparator

-- `[value] if value else []`
abbrev pub listed : Option Text → List Text
listed none = []
listed (some s) = if is_empty s then [] else s ∷ []

-- The verdict on one claim, the value that carried it, and where the values came from.
unfoldable pub settle_claim : Claim → Pairs → Option Bool × Option Text × Confidence
unfolding compare_sets
settle_claim claim pairs =
    let (agrees, value) = compare_sets claim.comparator claim.reported claim.official in
    elim agrees [
      | some b ↦ (some b, value, explicit)
      | none ↦
          let (model_reported, model_official) = get_pair claim.path pairs in
          let (agrees', value') =
            compare_sets claim.comparator (listed model_reported) (listed model_official) in
          (agrees', value', model_extracted)
    ]

unfoldable pub evidence_of : Candidate → Text → Text → Text → Confidence → Evidence
evidence_of c now path value confidence = record {
  claim_path = path;
  value = value;
  source_url = get_or c.official_url [];
  source_type = official_page;
  observed_at = now;
  excerpt = none;
  fetch_method = c.official_fetch_method;
  confidence = some confidence;
}

-- The evidence of a settled claim: `if agrees and value`.
unfoldable pub claim_evidence :
    Candidate → Text → Text → Option Bool × Option Text × Confidence → List Evidence
unfolding evidence_of
claim_evidence c now path (some true, some value, confidence) =
    if is_empty value then [] else evidence_of c now path value confidence ∷ []
claim_evidence c now path _ = []

unfoldable pub funding_claim : Facts → Facts → Claim
unfolding values
funding_claim reported official = record {
  path = lit "funding.amount";
  reported = values reported.funding_mentions;
  official = values official.funding_mentions;
  comparator = amounts_match;
}

unfoldable pub deadline_claim : Facts → Facts → Claim
unfolding values
deadline_claim reported official = record {
  path = lit "deadline.date";
  reported = values reported.deadline_mentions;
  official = values official.deadline_mentions;
  comparator = deadlines_match;
}

-- `_settle_agreement` over the two claims of `deterministic`, in their order.
unfoldable pub settle_agreement : Text → Candidate → Claim → Claim → Pairs → Candidate
unfolding settle_claim claim_evidence
settle_agreement now c funding deadline pairs =
    let amount = settle_claim funding pairs in
    let date = settle_claim deadline pairs in
    record c {
      evidence =
          c.evidence
          ++ claim_evidence c now funding.path amount
          ++ claim_evidence c now deadline.path date;
      amount_agrees = amount.0;
      deadline_agrees = date.0;
    }
