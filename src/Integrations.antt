-- ===== src/Integrations.antt =====
-- What the two clients of src/app/integrations share: a call's answer made into an object, or into the
-- client's own error. `_problem_code` stands in both modules alike.
pub mod Product
pub mod Router
use edufurther_agent_be.Base.{
  ℕ, Bool, not, ◌&&◌, Option, none, some, Text, lit, ◌++◌, leb, show_nat, get_or, rstrip_by, [],
  ◌==◌, is_empty, if◌then◌else◌,
}
use edufurther_agent_be.Errors.{ErrorKind, PyError, Result, ok, raise}
use edufurther_agent_be.Json.{Json, null, str, arr, obj, Items, nil, Fields, get_field, truthy}
use edufurther_agent_be.Tools.JinaClient.{HttpResponse, decode_failure, shape_failure}

-- `str(value)`: a string is itself, and `show` gives the text of any other value.
unfoldable pub text_of : (Json → Text) → Json → Text
text_of show (str s) = s
text_of show value = show value

-- `body.get(key)`, where a missing key is `None`
unfoldable pub get_value : Text → Fields → Json
get_value key body = get_or (get_field key body) null

-- `a or b`
unfoldable pub or_value : Json → Json → Json
or_value a b = if truthy a then a else b

-- `value or []`, walked as a list of objects; any other value raises.
unfoldable pub read_items : Json → Result Items
read_items (arr items) = ok items
read_items value = if truthy value then raise shape_failure else ok nil

unfoldable pub problem_code : (Json → Text) → Option Json → Text
unfolding text_of get_value or_value
problem_code show (some (obj body)) =
    text_of show
      (or_value (get_value (lit "code") body) (or_value (get_value (lit "detail") body) (str [])))
problem_code show _ = []

-- An error of the class `kind`, with the status where there was one.
unfoldable pub client_error : ErrorKind → Text → Option ℕ → Text → PyError
client_error kind type_name status message = record {
  kind = kind;
  type_name = type_name;
  status_code = status;
  message = message;
}

module _ (kind : ErrorKind) (type_name : Text) (show : Json → Text) where
  unfoldable pub error_answer : Text → HttpResponse → PyError
  unfolding problem_code client_error
  error_answer what response = client_error kind type_name (some response.status_code) (
      what
      ++ lit " returned "
      ++ show_nat response.status_code
      ++ lit ": "
      ++ problem_code show response.json)

  -- `response.json()`, which has to be an object
  unfoldable pub object_body : Text → Option Json → Result Fields
  unfolding client_error
  object_body what none = raise decode_failure
  object_body what (some (obj body)) = ok body
  object_body what (some _) =
      raise (client_error kind type_name none (what ++ lit " returned a non-object body"))

  unfoldable pub json_object : Text → HttpResponse → Result Fields
  unfolding error_answer object_body
  json_object what response =
      if leb 400 response.status_code
      then raise (error_answer what response)
      else object_body what response.json

-- `base_url.rstrip("/")`
unfoldable pub without_slash : Text → Text
without_slash = rstrip_by (λ c. c == b'/')
