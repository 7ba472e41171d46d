-- ===== src/Json.antt =====
-- The values of `json`: payloads, model output and what the product's API answers. A number is an
-- integer; the program does no arithmetic on one.
use edufurther_agent_be.Base.{
  ℕ, Bool, true, false, not, Option, none, some, Text, text_eq, is_empty, ◌==◌, if◌then◌else◌,
}

mutual
  pub data Json : Type 0 where
    null : Json
    bool : Bool → Json
    num : ℕ → Json
    str : Text → Json
    arr : Items → Json
    obj : Fields → Json

  pub data Items : Type 0 where
    nil : Items
    cons : Json → Items → Items

  pub data Fields : Type 0 where
    end : Fields
    field : Text → Json → Fields → Fields

-- `bool(value)`
unfoldable pub truthy : Json → Bool
truthy null = false
truthy (bool b) = b
truthy (num n) = not (n == 0)
truthy (str s) = not (is_empty s)
truthy (arr nil) = false
truthy (arr (cons x xs)) = true
truthy (obj end) = false
truthy (obj (field k v fs)) = true

-- `d.get(key)` of an object's fields, where the first entry of a key counts
unfoldable pub get_field : Text → Fields → Option Json
get_field key end = none
get_field key (field k v fs) = if text_eq key k then some v else get_field key fs
