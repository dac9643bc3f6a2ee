-- ===== src/Proxies.antt =====
-- crawler/fetcher/pool.go: pools of proxies and of user agents.
mod Types
mod Pool
mod Agents
pub mod Alive
pub mod Marks
pub mod Weights
pub mod Keywords
pub use Types.*
unfoldable pub use Pool.*
unfoldable pub use Agents.*
