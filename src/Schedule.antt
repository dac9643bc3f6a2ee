-- ===== src/Schedule.antt =====
-- crawler/task/scheduler.go: tasks submitted by a time table.
mod Types
mod Rules
mod Engine
pub mod Calls
pub mod Fields
pub mod Begin
pub mod Edits
pub mod Room
pub mod Slots
pub mod Bounded
pub mod Idle
pub mod Jobs
pub mod Wiring
pub mod Wired
unfoldable pub use Types.*
unfoldable pub use Rules.*
unfoldable pub use Engine.*
