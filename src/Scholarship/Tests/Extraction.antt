-- ===== src/Scholarship/Tests/Extraction.antt =====
-- Extraction and page texts at concrete inputs.
use mathlib.Core.List.{flat_map}
use edufurther_agent_be.Base.{is_space, ◌≡◌, refl, some, [], ◌∷◌, lit, All}
use edufurther_agent_be.Python.Regex.{
  one, many, literal, small_literal, matched, findall, findall_from, sub, sub_from,
}
use edufurther_agent_be.Scholarship.Extraction.{
  extract_candidate_facts, text_between, currency_amount, month_name_date, figure, currency_code,
  currency_codes, month_name, day_number,
}
use edufurther_agent_be.Scholarship.Extraction.Mentions.{IsPart, extract_candidate_facts_written}
use edufurther_agent_be.Scholarship.Extraction.Amounts.{IsAmount}
use edufurther_agent_be.Scholarship.Extraction.Dates.{IsDate}
use edufurther_agent_be.Scholarship.Prompts.{
  readable, boilerplate, comment, blanks, element, until, head,
}

mentions_run :
    findall currency_amount (lit "about 992 EUR, ROOM 101, £1,000.50 or USD 5")
    ≡ lit "992 EUR" ∷ lit "£1,000.50" ∷ lit "USD 5" ∷ []
unfolding findall findall_from matched currency_amount figure currency_code currency_codes one many
    literal lit flat_map is_space
mentions_run = refl

dates_run :
    findall month_name_date
      (lit "by 15 march 2026 or Sept 1st, 2026 or September 1st, 2026; 2026-03-01.")
    ≡ lit "15 march 2026" ∷ lit "September 1st, 2026" ∷ lit "2026-03-01" ∷ []
unfolding findall findall_from matched month_name_date month_name day_number one many small_literal
    lit flat_map is_space
dates_run = refl

readable_run : readable (lit "a  b<SCRIPT x>1</script >2</script>c<!-- d -->e") 7 ≡ lit "a b c e"
unfolding readable sub sub_from matched boilerplate comment blanks element until head one many
    literal small_literal lit flat_map is_space
readable_run = refl

extract_candidate_facts_written_example :
    let text = text_between (lit "Zeta") (some (lit "$5 by 1 May 2026")) in
    let facts = extract_candidate_facts (lit "Zeta") (some (lit "$5 by 1 May 2026")) in
    All (λ m. IsPart text m × IsAmount m) facts.funding_mentions
    × All (λ m. IsPart text m × IsDate m) facts.deadline_mentions
extract_candidate_facts_written_example =
    extract_candidate_facts_written (lit "Zeta") (some (lit "$5 by 1 May 2026"))

-- There is an amount and a date in that text.
found_run :
    (findall currency_amount (lit "Zeta $5 by 1 May 2026") ≡ lit "$5" ∷ [])
    × (findall month_name_date (lit "Zeta $5 by 1 May 2026") ≡ lit "1 May 2026" ∷ [])
unfolding findall findall_from matched currency_amount month_name_date figure currency_code
    currency_codes month_name day_number one many literal small_literal lit flat_map is_space
found_run = (refl, refl)
