-- ===== src/Instances.antt =====
-- crawler/task/manager.go: task instances, their states and their allocation to nodes.
mod Types
mod Engine
mod Create
mod Allocator
mod Ticks
pub mod Books
pub mod Moves
pub mod Balance
pub mod Restart
pub mod Worker
pub mod Open
pub mod Turns
pub mod Leaks
pub use Types.*
unfoldable pub use Create.*
unfoldable pub use Allocator.*
unfoldable pub use Engine.*
unfoldable pub use Ticks.*
