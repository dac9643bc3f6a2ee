-- ===== src/Lock.antt =====
-- lock/distributed_lock.go: a lock in Redis that several clients take turns to hold.
mod Types
mod Engine
pub mod Exclusive
pub mod Scoped
unfoldable pub use Types.*
unfoldable pub use Engine.*
