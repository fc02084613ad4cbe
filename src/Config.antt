-- ===== src/Config.antt =====
-- The package internal/config: the configuration from the environment.
pub mod System
pub mod Secret
pub mod Load
pub mod Tests
