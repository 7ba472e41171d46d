-- ===== src/Core.antt =====
-- src/app/core: identifiers.
pub mod Identifiers
