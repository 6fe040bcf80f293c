-- ===== src/Relay.antt =====
-- internal/bridge: the retry loop that relays a request to the upstream of a credential.
pub mod Status
pub mod World
pub mod Attempt
pub mod Loop
