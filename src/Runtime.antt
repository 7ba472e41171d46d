-- ===== src/Runtime.antt =====
-- The job runtime: src/app/runtime and the job store of src/app/infra.
pub mod Retries
pub mod Jobs
pub mod TaskState
pub mod GraphRunner
pub mod Sweeper
mod Tests
