-- ===== src/Utils.antt =====
-- utils: the helpers that the other parts call.
pub mod Lists
pub mod RetryAfter
