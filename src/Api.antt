-- ===== src/Api.antt =====
-- The HTTP interface: src/app/api.
pub mod Jobs
mod Tests
