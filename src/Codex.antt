-- ===== src/Codex.antt =====
-- core/codex: the scheduler of Codex credentials.
pub mod Tiers
pub mod PlanTypes
pub mod Rows
pub mod Select
pub mod Pool
pub mod Weights
pub mod Throttle
pub mod Memory
pub mod Refreshing
pub mod Scores
pub mod Quota
pub mod Unauthorized
pub mod Available
pub mod Storing
pub mod Retry
