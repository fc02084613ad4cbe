-- ===== src/Protocol.antt =====
-- The package internal/protocol: the messages of orka.gateway.v1 and their checks.
pub mod Types
pub mod Validate
pub mod Identity
