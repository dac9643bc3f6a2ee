-- ===== src/Tests.antt =====
-- Runs of the modelled code at concrete inputs.
mod Data
mod Tasks
mod Queues
mod Dispatching
mod Scheduling
mod Locking
mod Storing
mod Paging
mod Paying
mod Publishing
mod Clustering
mod Managing
mod Limiting
mod Fetching
mod Processing
