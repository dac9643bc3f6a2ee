-- ===== src/Cluster.antt =====
-- crawler/distributed: nodes, the cluster manager, the coordinator and the result middleware.
pub mod Types
pub mod Assign
pub mod Chain
pub mod Coordinator
pub mod Results
pub mod Placing
pub mod Rounds
pub mod Accepting
pub mod Drain
pub mod Retries
pub mod Timeouts
pub mod Manager
pub mod Reassign
pub mod Status
pub mod Counters
pub mod Counted
pub mod Batches
