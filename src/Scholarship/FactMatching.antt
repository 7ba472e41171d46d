-- ===== src/Scholarship/FactMatching.antt =====
-- src/app/usecases/scholarship_finder/fact_matching.py: whether two stated facts have the same value.
-- The digits of the patterns are the ASCII ones.
mod Amounts
mod Deadlines
pub mod Laws
pub use Amounts.{Decimal}
unfoldable pub use Amounts.{decimal_eq, both, parse_amount, amounts_match}
pub use Deadlines.{Date}
unfoldable pub use Deadlines.{date_eq, parse_deadline, deadlines_match, days_in_month, is_date}
pub use Laws.*
