-- ===== src/Raft.antt =====
-- raft-kv/raft/raft.h and raft.cpp: the state machine of one node. A call takes the state and
-- returns its result with the new state; messages go to the end of `msgs`.
pub mod State
pub mod Peers
pub mod Replicate
pub mod Roles
pub mod Follower
pub mod Election
pub mod Reads
pub mod Leader
pub mod Step
pub mod Members
pub mod Start
