-- ===== src/Logs.antt =====
-- internal/logs/store.go: the request log, an in-memory queue bounded in time and in length. The rows
-- are those of internal/store/store.go.
pub mod Store
pub mod Query
pub mod ErrorRates
pub mod Rows
