-- ===== src/Tests.antt =====
-- Concrete storages, logs and windows, and the runs of the theorems on them.
mod Samples
mod Stores
mod Logs
mod Peers
mod Nodes
mod Wals
mod Leaders
mod Servers
mod Configs
pub mod Drivers
pub mod Snaps
pub mod Wires
pub mod Sessions
pub mod Restarts
