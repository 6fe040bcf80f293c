-- ===== src/Affinity.antt =====
-- internal/bridge/affinity_cache.go: the affinity of request contents to credentials.
pub mod Edges
pub mod Trie
pub mod Expiry
pub mod Bindings
