-- ===== src/Scholarship/Loading.antt =====
-- `load_discovery` and `classify_page` of src/app/usecases/scholarship_finder/nodes.py. `show` is `str`
-- of a value that is no string, and `repr` that of a text.
pub mod Classes
use edufurther_agent_be.Base.{
  ℕ, Bool, Option, none, some, List, [], ◌∷◌, ◌++◌, Text, lit, contains_text, get_or, if◌then◌else◌,
}
use edufurther_agent_be.Errors.{PyError, other_error, Result, ok, raise}
use edufurther_agent_be.Json.{Json, null, arr, str, Items, nil, cons, Fields, get_field, truthy}
use edufurther_agent_be.Integrations.{text_of, get_value, or_value}
use edufurther_agent_be.Integrations.Product.{
  ProductHttp, ProductSettings, client_from_settings, get_discovery,
}
use edufurther_agent_be.Integrations.Router.{
  classify_source_page, RouterResponse, usable_output, router_outcome_value, text_field,
}
use edufurther_agent_be.Scholarship.Schemas.{
  individual, list, aggregator, not_a_scholarship, page_type_value,
}
use edufurther_agent_be.Scholarship.Sources.{Discovery}
use edufurther_agent_be.Scholarship.Prompts.{classify_source_data}
use edufurther_agent_be.Scholarship.Workflow.{State, add_note, add_uncertainty}
use edufurther_agent_be.Scholarship.Asking.{Router, ask, page_provenance}

unfoldable pub key_failure : Text → PyError
key_failure key = record {
  kind = other_error;
  type_name = lit "KeyError";
  status_code = none;
  message = key;
}

module _ (show : Json → Text) where
  abbrev pub texts_of : Items → List Text
  texts_of nil = []
  texts_of (cons value items) = text_of show value ∷ texts_of items

  -- `list(discovery.get("approved_domains") or [])`
  unfoldable pub domains_of : Fields → List Text
  domains_of body = elim (get_value (lit "approved_domains") body) [
    | arr items ↦ texts_of items
    | _ ↦ []
  ]

  unfoldable pub discovery_of : Text → Text → Fields → Discovery
  unfolding text_field
  discovery_of id source_url body = record {
    discovery_id = id;
    raw_title = text_field (lit "raw_title") body;
    raw_excerpt = text_field (lit "raw_excerpt") body;
    source_url = source_url;
    authority_grade = text_of show (or_value (get_value (lit "authority_grade") body) (str []));
    provider_name = text_field (lit "provider_name") body;
  }

  -- What is made of the product's record; a missing key raises.
  unfoldable pub take_discovery : State → Fields → Result State
  unfolding add_note key_failure discovery_of domains_of
  take_discovery s body = elim (get_field (lit "source_url") body) [
    | none ↦ raise (key_failure (lit "source_url"))
    | some url ↦ elim (get_field (lit "discovery_id") body) [
      | none ↦ raise (key_failure (lit "discovery_id"))
      | some id ↦ ok (
          add_note (lit "loaded discovery " ++ text_of show id) (record s {
            discovery = discovery_of (text_of show id) (text_of show url) body;
            approved_domains = domains_of body;
          }))
    ]
  ]

  unfoldable pub load_discovery : ProductHttp → ProductSettings → State → Result State
  unfolding take_discovery
  load_discovery http product s = elim (client_from_settings product) [
    | raise exc ↦ raise exc
    | ok client ↦ elim (get_discovery http client s.input_reference) [
      | raise exc ↦ raise exc
      | ok body ↦ take_discovery s body
    ]
  ]

  -- `{member.value for member in PageType}`
  unfoldable pub page_types : List Text
  page_types =
      page_type_value individual
      ∷ page_type_value list
      ∷ page_type_value aggregator
      ∷ page_type_value not_a_scholarship
      ∷ []

  unfoldable pub fall_back_to_individual : Text → State → State
  unfolding add_note add_uncertainty
  fall_back_to_individual reason s = add_uncertainty reason (
      add_note (lit "classification fell back to individual")
        (record s { page_type = page_type_value individual }))

  module _ (repr : Text → Text) where
    unfoldable pub take_page_type : Text → State → State
    unfolding page_types fall_back_to_individual add_note
    take_page_type page_type s =
        if contains_text page_type page_types
        then add_note (lit "classified as " ++ page_type) (record s { page_type = page_type })
        else fall_back_to_individual (lit "unrecognised page type " ++ repr page_type) s

    -- What is made of the router's answer.
    unfoldable pub take_class : RouterResponse → State → State
    unfolding take_page_type fall_back_to_individual
    take_class response s = elim (usable_output response) [
      | none ↦
          fall_back_to_individual
            (lit "page classification unavailable ("
              ++ router_outcome_value response.outcome
              ++ lit ")")
            s
      | some output ↦ take_page_type (text_of show (get_value (lit "page_type") output)) s
    ]

    -- An error of the router is not caught here.
    unfoldable pub classify_page : Result Router → State → Result State
    unfolding take_class page_provenance
    classify_page (raise exc) s = raise exc
    classify_page (ok router) s =
        elim (ask router classify_source_page s (lit "classify")
          (classify_source_data s.discovery.raw_title s.discovery.raw_excerpt s.page_text)) [
            | raise exc ↦ raise exc
            | ok response ↦ ok (page_provenance response (take_class response s))
          ]
