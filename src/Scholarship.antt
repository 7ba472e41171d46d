-- ===== src/Scholarship.antt =====
-- The scholarship verification workflow: src/app/usecases/scholarship_finder.
pub mod Schemas
pub mod Normalization
pub mod Extraction
pub mod Prompts
pub mod OfficialSource
pub mod Sources
pub mod FactMatching
pub mod Policies
pub mod Compare
pub mod Workflow
pub mod OfficialPages
pub mod Asking
pub mod Loading
pub mod Splitting
pub mod Reading
pub mod Evidence
pub mod Payloads
pub mod Submission
pub mod Graph
mod Tests
