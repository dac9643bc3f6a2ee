-- ===== src/Dispatch.antt =====
-- crawler/task/dispatcher.go: tasks from a queue to worker nodes.
mod Types
mod Select
mod Engine
mod Intake
pub mod Picks
pub mod Health
pub mod Conserve
pub mod Load
pub mod Lossless
pub use Types.*
unfoldable pub use Select.*
unfoldable pub use Engine.*
unfoldable pub use Intake.*
