-- ===== src/Raft.antt =====
-- kv-store/internal/raft: the Raft log, the state of a node and its handlers.
pub mod Log
mod Examples
pub mod Node
pub mod Vote
pub mod AppendEntries
pub mod Election
pub mod Heartbeat
pub mod Lifecycle
pub mod Run
pub mod Cluster
pub mod Network
pub mod KvNode
pub mod Rpc
