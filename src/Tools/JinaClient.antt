-- ===== src/Tools/JinaClient.antt =====
-- src/app/tools/jina.py: the calls of Jina's reader and of its search, over HTTP transport.
use edufurther_agent_be.Base.{
  ℕ, zero, suc, ◌&&◌, Option, none, some, List, [], ◌∷◌, ◌++◌, Text, lit, is_empty, leb, ltb,
  if◌then◌else◌,
}
use edufurther_agent_be.Errors.{PyError, http_error, value_error, other_error, Result, ok, raise}
use edufurther_agent_be.Json.{Json, arr, obj, Items, nil, cons, Fields, get_field, truthy}
use edufurther_agent_be.Tools.Retrieval.{Jina, SearchResult}

-- A response, and its body as JSON where it is some.
pub record HttpResponse : Type 0 where
  pub status_code : ℕ
  pub text : Text
  pub json : Option Json

-- GET with the key in the header, which raises a transport failure; `str` of a JSON value; the body
-- decoder and the length of a text in UTF-8.
pub record Transport : Type 0 where
  pub get : Text → Result HttpResponse
  pub str_of : Json → Text
  pub decode : List ℕ → Text
  pub utf8_length : Text → ℕ

unfoldable pub reader_base_url : Text
reader_base_url = lit "https://r.jina.ai"

unfoldable pub search_base_url : Text
search_base_url = lit "https://s.jina.ai"

unfoldable pub status_failure : PyError
status_failure = record {
  kind = http_error;
  type_name = lit "HTTPStatusError";
  status_code = none;
  message = lit "error response";
}

unfoldable pub decode_failure : PyError
decode_failure = record {
  kind = value_error;
  type_name = lit "JSONDecodeError";
  status_code = none;
  message = lit "Expecting value";
}

-- A `TypeError` or an `AttributeError`, where the answer has another shape.
unfoldable pub shape_failure : PyError
shape_failure = record {
  kind = other_error;
  type_name = lit "AttributeError";
  status_code = none;
  message = lit "unexpected shape";
}

-- `raise_for_status`: whatever is no success raises.
unfoldable pub successful : Result HttpResponse → Result HttpResponse
successful (raise exc) = raise exc
successful (ok response) =
    if leb 200 response.status_code && ltb response.status_code 300
    then ok response
    else raise status_failure

unfoldable pub fetch_via_jina : Transport → Text → Result Text
unfolding successful
fetch_via_jina transport url =
    elim (successful (transport.get (reader_base_url ++ lit "/" ++ url))) [
      | raise exc ↦ raise exc
      | ok response ↦ ok response.text
    ]

-- `str(item.get(key) or "")`
unfoldable pub field_text : Transport → Text → Fields → Text
field_text transport key fields = elim (get_field key fields) [
  | none ↦ []
  | some value ↦ if truthy value then transport.str_of value else []
]

-- The loop over the first `limit` items; an item without a URL is passed over.
unfoldable pub read_results : Transport → ℕ → Items → Result (List SearchResult)
unfolding field_text
read_results transport zero items = ok []
read_results transport (suc limit) nil = ok []
read_results transport (suc limit) (cons (obj item) items) =
    let url = field_text transport (lit "url") item in
    elim (read_results transport limit items) [
      | raise exc ↦ raise exc
      | ok results ↦ ok (
          if is_empty url
          then results
          else record { title = field_text transport (lit "title") item; url = url } ∷ results)
    ]
read_results transport (suc limit) (cons _ items) = raise shape_failure

-- `(body.get("data") or [])[:limit]`
unfoldable pub read_data : Transport → ℕ → Option Json → Result (List SearchResult)
unfolding read_results
read_data transport limit none = ok []
read_data transport limit (some (arr items)) = read_results transport limit items
read_data transport limit (some value) = if truthy value then raise shape_failure else ok []

unfoldable pub read_body : Transport → ℕ → Option Json → Result (List SearchResult)
unfolding read_data
read_body transport limit none = raise decode_failure
read_body transport limit (some (obj body)) =
    read_data transport limit (get_field (lit "data") body)
read_body transport limit (some _) = ok []

unfoldable pub search_via_jina : Transport → Text → ℕ → Result (List SearchResult)
unfolding successful read_body
search_via_jina transport query limit =
    elim (successful (transport.get (search_base_url ++ lit "/" ++ query))) [
      | raise exc ↦ raise exc
      | ok response ↦ read_body transport limit response.json
    ]

-- The client that the retrievals are given.
unfoldable pub jina_client : Transport → Jina
unfolding fetch_via_jina search_via_jina
jina_client transport = record {
  fetch_via_jina = fetch_via_jina transport;
  search_via_jina = search_via_jina transport;
  decode = transport.decode;
  utf8_length = transport.utf8_length;
}
