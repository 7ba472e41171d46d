-- ===== src/Tools/Budget/Limit.antt =====
-- The limit of a budget: what one reservation does, and what any number of them can spend.
use edufurther_agent_be.Base.{
  ℕ, suc, ◌+◌, ◌-◌, ◌≤◌, ◌<◌, min, ◌≡◌, ◌⊎◌, Bool, true, false, ◌&&◌, none, some, List, [], ◌∷◌,
  Text, text_eq, text_eq→eq, text_eq_refl, arith, if◌then◌else◌,
}
use edufurther_agent_be.Tools.Budget.{Usage, upsert_usage, reserve_call, calls_used}

upsert_usage_lem :
    (p k : Text) (limit : ℕ) (usage : Usage)
    → 0 < limit
    → let used = calls_used p k usage in
      let (row, usage') = upsert_usage p k limit usage in
      ((used < limit) × (row ≡ some (used + 1)) × (calls_used p k usage' ≡ used + 1))
      ⊎ ((limit ≤ used) × (row ≡ none) × (usage' ≡ usage))
unfolding upsert_usage calls_used
upsert_usage_lem p k limit [] h = ground (arith, text_eq_refl p, text_eq_refl k)
upsert_usage_lem p k limit (r ∷ usage) h = ground (arith, upsert_usage_lem p k limit usage)

-- A reservation is granted exactly below the limit. A grant spends one call, and a refusal nothing.
pub reserve_call_lem :
    (p k : Text) (limit : ℕ) (usage : Usage)
    → let used = calls_used p k usage in
      let (granted, usage') = reserve_call p limit k usage in
      ((used < limit) × (granted ≡ true) × (calls_used p k usage' ≡ used + 1))
      ⊎ ((limit ≤ used) × (granted ≡ false) × (usage' ≡ usage))
unfolding reserve_call
reserve_call_lem p k limit usage = ground (arith, upsert_usage_lem p k limit usage)

abbrev pub is_call : Text → Text → Text × Text → Bool
is_call p k (q, j) = text_eq q p && text_eq j k

upsert_usage_other :
    (p k q j : Text) (limit : ℕ) (usage : Usage)
    → is_call p k (q, j) ≡ false
    → calls_used p k (upsert_usage q j limit usage).1 ≡ calls_used p k usage
unfolding upsert_usage calls_used
upsert_usage_other p k q j limit [] h = ground arith
upsert_usage_other p k q j limit (r ∷ usage) h = ground (
  arith,
  upsert_usage_other p k q j limit usage h,
  text_eq→eq r.provider q,
  text_eq→eq r.period_key j,
)

reserve_call_other :
    (p k q j : Text) (limit : ℕ) (usage : Usage)
    → is_call p k (q, j) ≡ false
    → calls_used p k (reserve_call q limit j usage).1 ≡ calls_used p k usage
unfolding reserve_call
reserve_call_other p k q j limit usage h = ground (arith, upsert_usage_other p k q j limit usage h)

-- Reservations for any providers and periods, in any order: how many were granted for (p, k), and
-- the table they leave. `limits` is the limit of each provider.
pub spend : Text → Text → (Text → ℕ) → List (Text × Text) → Usage → ℕ × Usage
spend p k limits [] usage = (0, usage)
spend p k limits ((q, j) ∷ calls) usage =
    let (granted, usage') = reserve_call q (limits q) j usage in
    let (n, final) = spend p k limits calls usage' in
    (if granted && is_call p k (q, j) then suc n else n, final)

abbrev pub count_calls : Text → Text → List (Text × Text) → ℕ
count_calls p k [] = 0
count_calls p k (c ∷ calls) =
    if is_call p k c then suc (count_calls p k calls) else count_calls p k calls

-- However the calls of all providers are interleaved, a provider is granted in a period exactly as
-- many calls as it asks for, up to what its limit leaves, and each of them is accounted for.
pub spend_limit :
    (p k : Text) (limits : Text → ℕ) (calls : List (Text × Text)) (usage : Usage)
    → let used = calls_used p k usage in
      let (n, final) = spend p k limits calls usage in
      (n ≡ min (count_calls p k calls) (limits p - used)) × (calls_used p k final ≡ used + n)
unfolding spend
spend_limit p k limits [] usage = (omega arith, omega arith)
spend_limit p k limits ((q, j) ∷ calls) usage = ground (
  arith,
  reserve_call_lem q j (limits q) usage,
  reserve_call_other p k q j (limits q) usage,
  text_eq→eq q p,
  text_eq→eq j k,
  spend_limit p k limits calls (reserve_call q (limits q) j usage).1,
)
