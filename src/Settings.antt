-- ===== src/Settings.antt =====
-- internal/settings: the settings and the service that keeps them.
pub mod Snapshots
pub mod Endpoints
pub mod Normal
pub mod Service
pub mod Saved
