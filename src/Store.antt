-- ===== src/Store.antt =====
-- The package internal/store: durable records of Telegram updates and of Orka deliveries.
pub mod Types
pub mod Table
pub mod Db
pub mod Exec
pub mod Normalize
pub mod Query
pub mod Statements
pub mod Deliveries
pub mod Completion
pub mod Updates
pub mod Run
pub mod Ensures
pub mod Atomic
pub mod Reflects
pub mod Claims
pub mod Keeps
pub mod Extends
pub mod Tests
pub mod History
pub mod Finished
pub mod Messages
pub mod Responses
pub mod Delivered
pub mod Fresh
pub mod Lifecycle
pub mod Migrate
pub mod Open
pub mod Content
