-- ===== src/Pipeline.antt =====
-- crawler/pipeline/pipeline.go and errors/errors.go: data through processors that may fail.
mod Errors
mod Engine
pub mod Meaning
pub mod Runs
pub mod Tally
unfoldable pub use Errors.*
unfoldable pub use Engine.*
