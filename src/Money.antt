-- ===== src/Money.antt =====
-- decimal/money.go: amounts of money over a decimal library.
mod Types
mod Engine
pub mod Shares
pub use Types.*
unfoldable pub use Engine.*
