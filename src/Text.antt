-- ===== src/Text.antt =====
-- Go strings and what the program uses of the packages strings, unicode and unicode/utf8.
pub mod Controls
pub mod Utf8
pub mod Space
pub mod Sanitize
pub mod Json
pub mod Decimal
pub mod Split
pub mod Replace
pub mod Longest
pub mod Plain
pub mod Cut
pub mod Trim
pub mod Runes
pub mod Tests
