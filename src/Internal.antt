-- ===== src/Internal.antt =====
-- src/internal/: the gateway-to-gateway layer, one module for each of its files.
pub mod Idempotency
pub mod Inbox
pub mod Nonces
pub mod Outbox
pub mod Routing
pub mod Envelope
pub mod Signing
