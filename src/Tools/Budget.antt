-- ===== src/Tools/Budget.antt =====
-- src/app/tools/budget.py: the monthly call budget of a provider.
pub mod Limit
use edufurther_agent_be.Base.{
  ℕ, zero, suc, ◌+◌, ◌/◌, ◌%◌, Bool, true, false, ◌&&◌, Option, none, some, List, [], ◌∷◌, ◌++◌,
  Text, lit, text_eq, show_nat, leb, ltb, ◌==◌, if◌then◌else◌,
}

-- `agent_research_usage`, with the primary key (provider, period_key)
pub record ResearchProviderUsage : Type 0 where
  pub provider : Text
  pub period_key : Text
  pub calls_used : ℕ

abbrev pub Usage : Type 0
Usage = List ResearchProviderUsage

-- `strftime("%Y-%m")` of a date from the year 1000 on
unfoldable pub current_period_key : ℕ → ℕ → Text
current_period_key year month =
    show_nat year ++ lit "-" ++ (48 + month / 10) ∷ (48 + month % 10) ∷ []

abbrev pub is_row : Text → Text → ResearchProviderUsage → Bool
is_row provider period_key row = text_eq row.provider provider && text_eq row.period_key period_key

-- `INSERT ... ON CONFLICT DO UPDATE ... WHERE calls_used < limit RETURNING calls_used`: the row that
-- is returned, if any, and the table.
unfoldable pub upsert_usage : Text → Text → ℕ → Usage → Option ℕ × Usage
upsert_usage provider period_key limit [] =
    (some 1, record { provider = provider; period_key = period_key; calls_used = 1 } ∷ [])
upsert_usage provider period_key limit (row ∷ rows) =
    let rest = upsert_usage provider period_key limit rows in
    if is_row provider period_key row
    then if ltb row.calls_used limit
      then (some (row.calls_used + 1), record row { calls_used = row.calls_used + 1 } ∷ rows)
      else (none, row ∷ rows)
    else (rest.0, row ∷ rest.1)

unfoldable pub reserve_call : Text → ℕ → Text → Usage → Bool × Usage
unfolding upsert_usage
reserve_call provider limit period_key usage =
    if limit == 0
    then (false, usage)
    else let (row, usage') = upsert_usage provider period_key limit usage in
      (elim row [ none ↦ false | some n ↦ true ], usage')

unfoldable pub calls_used : Text → Text → Usage → ℕ
calls_used provider period_key [] = 0
calls_used provider period_key (row ∷ rows) =
    if is_row provider period_key row then row.calls_used else calls_used provider period_key rows
