-- ===== src/Task.antt =====
-- crawler/task/task.go: a task, its methods, and what they keep true.
mod Types
mod Lifecycle
pub mod Stamps
pub mod Retries
pub mod Labels
pub use Types.*
unfoldable pub use Lifecycle.*
