-- ===== src/Adapter.antt =====
-- The package internal/adapter: the HTTP handlers.
pub mod Delivery
pub mod Http
pub mod Webhook
pub mod Server
pub mod Routing
pub mod Identities
pub mod Tests
