-- ===== src/Hub.antt =====
-- The Hub: its agents and matches (src/hub-resolve.ts), the search for them (src/hub-discovery.ts), the registration
-- (src/hub-registration.ts) and the bearer token (src/hub-auth.ts).
pub mod Agents
pub mod Values
pub mod Resolve
pub mod Peers
pub mod Protocols
pub mod Registration
pub mod Keys
pub mod Bound
pub mod Discovery
pub mod Entered
pub mod Auth
mod Tests
