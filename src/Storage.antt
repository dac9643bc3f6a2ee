-- ===== src/Storage.antt =====
-- crawler/storage/memory.go: a store with keys that expire.
mod Memory
pub mod Expiry
pub mod Cleanup
pub mod Batches
unfoldable pub use Memory.*
