-- ===== src/Examples.antt =====
-- The theorems at concrete inputs.
mod Scheduling
mod Logs
mod Codex
mod Relay
mod Settings
mod Quota
mod Affinity
mod Contents
