-- ===== src/Scheduling.antt =====
-- core/scheduling: what the schedulers of all the providers share.
pub mod Backoff
pub mod Best
pub mod Plans
pub mod Times
pub mod QuotaSync
pub mod Refresh
