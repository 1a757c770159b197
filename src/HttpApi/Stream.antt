-- ===== src/HttpApi/Stream.antt =====
-- The handler of /events in kv-store/internal/httpapi/handler.go: which events a client gets.
pub mod Filter
use distributed_fault_tolera.Prelude.{
  ℕ, Bytes, List, [], ◌∷◌, ◌++◌, Bool, true, false, ◌&&◌, ◌||◌, not, Option, none, some, eq_bytes,
  if◌then◌else◌,
}
use distributed_fault_tolera.Events.{
  EventType, Event, election_started, vote_granted, vote_rejected, became_leader, became_follower,
  became_candidate, heartbeat_sent, heartbeat_received, append_entries_sent, append_entries_success,
  append_entries_failed, log_appended, log_replicated, commit_advanced, command_applied,
  node_stopped, node_restarted, leader_changed,
}
use distributed_fault_tolera.Events.Bus.{Bus, subscribe}
use distributed_fault_tolera.HttpApi.Text.{codes, show_int}

unfoldable pub is_heartbeat : EventType → Bool
is_heartbeat heartbeat_sent = true
is_heartbeat heartbeat_received = true
is_heartbeat log_replicated = true
is_heartbeat append_entries_sent = true
is_heartbeat append_entries_success = true
is_heartbeat append_entries_failed = true
is_heartbeat _ = false

unfoldable pub is_election : EventType → Bool
is_election election_started = true
is_election vote_granted = true
is_election vote_rejected = true
is_election became_candidate = true
is_election became_leader = true
is_election became_follower = true
is_election leader_changed = true
is_election node_stopped = true
is_election node_restarted = true
is_election _ = false

unfoldable pub matches_filter : Event → Bytes → Bytes → Bool
matches_filter e node_filter category =
    if not (eq_bytes node_filter [])
      && not (eq_bytes node_filter (codes "all"))
      && (not (eq_bytes (show_int e.node_id) node_filter)
          && not (eq_bytes (show_int e.peer_id) node_filter))
    then false
    else if eq_bytes category (codes "heartbeats")
    then is_heartbeat e.kind
    else if eq_bytes category (codes "elections")
    then is_election e.kind
    else true

-- The loop over the recent events: what is sent of them.
unfoldable pub matching : Bytes → Bytes → List Event → List Event
matching node_filter category [] = []
matching node_filter category (e ∷ es) =
    let rest = matching node_filter category es in
    if matches_filter e node_filter category then e ∷ rest else rest

-- The start of a stream: the subscriber, and the recent events that are sent to it.
unfoldable pub sse_start : Bytes → Bytes → Bus → Bus × ℕ × List Event
sse_start node_filter category b =
    let (b', sub) = subscribe b in (b', sub, matching node_filter category b'.recent)

-- What is sent after an event came on the channel of the subscriber.
unfoldable pub sse_event : Bytes → Bytes → Event → List Event → List Event
sse_event node_filter category e sent =
    if not (matches_filter e node_filter category) then sent else sent ++ (e ∷ [])
