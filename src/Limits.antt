-- ===== src/Limits.antt =====
-- middleware/ratelimit.go: rate limiting over Redis.
mod Types
mod Engine
pub mod Members
pub mod Kept
pub mod Window
pub mod Passing
pub use Types.*
unfoldable pub use Engine.*
