-- ===== src/Core/Identifiers/Laws.antt =====
-- The fields of a UUIDv7 and its order, and the length of a job's key.
use edufurther_agent_be.Base.{
  ℕ, ◌+◌, ◌/◌, ◌%◌, ◌^◌, ◌≤◌, ◌<◌, ◌≡◌, ◌++◌, Text, lit, length, length-append, arith, leb, leb→le,
  refl, Bool-cases, inl, inr,
}
use edufurther_agent_be.Core.Identifiers.{
  job_idempotency_key, uuid7_value, max_idempotency_key_length,
}

-- A UUIDv7 has 128 bits; its top 48 are the time, the next 4 the version, and below 12 random bits
-- stands the variant.
pub uuid7_value_fields :
    (t r : ℕ)
    → (uuid7_value t r < 2 ^ 128)
      × (uuid7_value t r / 2 ^ 80 ≡ t % 2 ^ 48)
      × (uuid7_value t r / 2 ^ 76 % 16 ≡ 7)
      × (uuid7_value t r / 2 ^ 62 % 4 ≡ 2)
unfolding uuid7_value
uuid7_value_fields t r = (omega arith, omega arith, omega arith, omega arith)

-- The ids of two different milliseconds are ordered as these are, as long as the time fits its field.
pub uuid7_value_ordered :
    (t t' r r' : ℕ) → t < t' → t' < 2 ^ 48 → uuid7_value t r < uuid7_value t' r'
unfolding uuid7_value
uuid7_value_ordered t t' r r' h b = omega arith

length-sha_mark : length (lit ":sha256:") ≡ 8
unfolding lit
length-sha_mark = refl

length-colon : length (lit ":") ≡ 1
unfolding lit
length-colon = refl

length-hashed :
    (a b d : Text)
    → length (a ++ lit ":" ++ b ++ lit ":sha256:" ++ d) ≡ length a + 1 + length b + 8 + length d
length-hashed a b d = simp length-append (omega (arith, length-colon, length-sha_mark))

-- A key never exceeds its column, where the digest has the 64 characters of SHA-256 and the use case
-- and the version respect the bounds of a submission.
pub job_idempotency_key_fits :
    (sha256_hex : Text → Text) (use_case version reference : Text)
    → ((key : Text) → length (sha256_hex key) ≡ 64)
    → length use_case ≤ 64
    → length version ≤ 64
    → length (job_idempotency_key sha256_hex use_case version reference)
      ≤ max_idempotency_key_length
unfolding job_idempotency_key
job_idempotency_key_fits sha256_hex use_case version reference digest u v =
    let key = use_case ++ lit ":" ++ version ++ lit ":" ++ reference in
    elim (Bool-cases (leb (length key) max_idempotency_key_length)) [
      | inl fits ↦ rw fits (leb→le (length key) max_idempotency_key_length fits)
      | inr long ↦
          rw long (omega (arith, length-hashed use_case version (sha256_hex key), digest key))
    ]
