-- ===== src/Errors.antt =====
-- The exceptions that the program raises and tells apart: the class that an `except` clause or an
-- `isinstance` test names, with the attributes that the code reads. A subclass has its own
-- `type_name` under the kind of the class that is tested.
use edufurther_agent_be.Base.{ℕ, Option, Text, ◌≡◌, refl, ◌⊎◌, inl, inr}

pub data ErrorKind : Type 0 where
  timeout_error value_error http_error : ErrorKind
  tool_disabled tool_budget_exhausted tool_policy_refusal : ErrorKind
  unknown_use_case ai_router_error scholarship_finder_error : ErrorKind
  runtime_error other_error : ErrorKind

pub record PyError : Type 0 where
  pub kind : ErrorKind
  pub type_name : Text
  pub status_code : Option ℕ  -- `getattr(exc, "status_code", None)`, where it is an integer
  pub message : Text

-- What a call that may raise gives.
pub data Result {ℓ} (A : Type ℓ) : Type ℓ where
  ok : A → Result A
  raise : PyError → Result A

-- To split on a computed result and keep the equation.
pub Result-cases {ℓ} :
    {A : Type ℓ} (r : Result A) → ((exc : PyError) × (r ≡ raise exc)) ⊎ ((a : A) × (r ≡ ok a))
Result-cases (ok a) = inr (a, refl)
Result-cases (raise exc) = inl (exc, refl)

pub ok-inj {ℓ} : {A : Type ℓ} (a b : A) → ok a ≡ ok b → a ≡ b
ok-inj a b h = cc
