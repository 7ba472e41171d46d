-- ===== src/Tools.antt =====
-- The tools: src/app/tools. Their kill switches, budgets and telemetry, the network guard, and the
-- order in which the fetchers are tried.
pub mod Records
pub mod Budget
pub mod Registry
pub mod Urls
pub mod Throttle
pub mod DirectFetch
pub mod Retrieval
pub mod JinaClient
mod Tests
