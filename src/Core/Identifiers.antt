-- ===== src/Core/Identifiers.antt =====
-- src/app/core/identifiers.py: UUIDv7 values, the printed form of a UUID, and the idempotency key of
-- a job. The SHA-256 digest is the standard library's hash and stays a parameter.
pub mod Laws
use edufurther_agent_be.Base.{
  ℕ, zero, suc, ◌+◌, ◌*◌, ◌/◌, ◌%◌, ◌^◌, ◌≤◌, List, [], ◌∷◌, ◌++◌, Text, lit, length, leb, ltb,
  if◌then◌else◌,
}

abbrev pub max_idempotency_key_length : ℕ
max_idempotency_key_length = 500

-- `{use_case}:{workflow_version}:{input_reference}`, or its digest where that would not fit
unfoldable pub job_idempotency_key : (Text → Text) → Text → Text → Text → Text
job_idempotency_key sha256_hex use_case workflow_version input_reference =
    let key = use_case ++ lit ":" ++ workflow_version ++ lit ":" ++ input_reference in
    if leb (length key) max_idempotency_key_length
    then key
    else use_case ++ lit ":" ++ workflow_version ++ lit ":sha256:" ++ sha256_hex key

-- The fallback of `new_uuid7`: 48 bits of the time in milliseconds, the version, 12 random bits, the
-- variant and 62 random bits. The fields do not overlap, so `|` adds them.
unfoldable pub uuid7_value : ℕ → ℕ → ℕ
uuid7_value time_ms random_bits =
    time_ms % 2 ^ 48 * 2 ^ 80
    + 0x7 * 2 ^ 76
    + random_bits / 2 ^ 62 % 2 ^ 12 * 2 ^ 64
    + 0x2 * 2 ^ 62
    + random_bits % 2 ^ 62

-- The code point of a hexadecimal digit.
abbrev pub hex_digit : ℕ → ℕ
hex_digit d = if ltb d 10 then 48 + d else 87 + d

-- The last `k` hexadecimal digits of `n`, in front of `acc`.
unfoldable pub hex_from : ℕ → ℕ → Text → Text
hex_from zero n acc = acc
hex_from (suc k) n acc = hex_from k (n / 16) (hex_digit (n % 16) ∷ acc)

-- `str(uuid)`
unfoldable pub uuid_text : ℕ → Text
unfolding hex_from
uuid_text n =
    hex_from 8 (n / 2 ^ 96) []
    ++ lit "-"
    ++ hex_from 4 (n / 2 ^ 80) []
    ++ lit "-"
    ++ hex_from 4 (n / 2 ^ 64) []
    ++ lit "-"
    ++ hex_from 4 (n / 2 ^ 48) []
    ++ lit "-"
    ++ hex_from 12 n []

-- `uuid.hex` behind a prefix
unfoldable pub new_correlation_id : ℕ → ℕ → Text
unfolding uuid7_value hex_from
new_correlation_id time_ms random_bits =
    lit "agent_" ++ hex_from 32 (uuid7_value time_ms random_bits) []
