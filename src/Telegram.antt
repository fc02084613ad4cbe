-- ===== src/Telegram.antt =====
-- The package internal/telegram: reply targets, and the results of sendMessage.
pub mod ReplyTarget
pub mod Client
pub mod Update
pub mod Mapping
pub mod Tests
