-- ===== src/Tests.antt =====
-- Concrete runs of the reconcilers, on a cluster held in memory.
pub mod Cluster
pub mod Objects
mod Runs
pub mod Agent
mod Served
pub mod Versions
pub mod Working
mod Rounds
mod Checkpoints
mod Containers
mod Manager
mod Commands
mod Paths
mod Server
mod Children
mod Copies
mod Requests
