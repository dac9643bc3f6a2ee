-- ===== src/Queue.antt =====
-- crawler/task/queue.go: the in-memory queue and the priority queue over several of them.
mod Types
pub mod Memory
pub mod Priority
pub mod View
pub mod Fifo
pub mod Counter
pub mod Order
pub mod Rounds
pub mod Occupancy
pub mod Interface
pub mod Instances
pub use Types.*
