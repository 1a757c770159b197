-- ===== src/Events.antt =====
-- kv-store/internal/events/events.go: the events that the Raft nodes publish, and the bus.
pub mod Bus
use distributed_fault_tolera.Prelude.{ℕ, ℤ, Bytes}

pub data EventType : Type 0 where
  election_started vote_granted vote_rejected became_leader became_follower : EventType
  became_candidate heartbeat_sent heartbeat_received append_entries_sent : EventType
  append_entries_success append_entries_failed log_appended log_replicated : EventType
  commit_advanced command_applied node_stopped node_restarted leader_changed : EventType

-- The texts that the nodes put in an event, with the values that `fmt.Sprintf` puts into them.
pub data Message : Type 0 where
  node_became_candidate node_became_leader election_began stepped_down vote_was_granted : Message
  commit_index_advanced command_was_applied node_was_stopped node_was_restarted : Message
  appended_at : (kind : ℕ) (key : Bytes) (index : ℕ) → Message
  leader_changed_to heartbeat_sent_to heartbeat_received_from log_replicated_to : ℤ → Message

pub record Event : Type 0 where
  pub timestamp : ℕ
  pub node_id : ℤ
  pub kind : EventType
  pub term : ℕ
  pub message : Message
  pub peer_id : ℤ
  pub log_index : ℕ
