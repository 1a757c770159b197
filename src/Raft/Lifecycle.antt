-- ===== src/Raft/Lifecycle.antt =====
-- kv-store/internal/raft/node.go: Start, Stop, Restart, the setters and the status of a node.
use distributed_fault_tolera.Prelude.{
  ℕ, Bytes, List, Bool, true, false, not, some, ℤ, minus_one, if◌then◌else◌,
}
use distributed_fault_tolera.Events.{
  log_appended, appended_at, node_stopped, node_was_stopped, node_restarted, node_was_restarted,
}
use distributed_fault_tolera.Raft.Log.{Command, append, last_index}
use distributed_fault_tolera.Raft.Node.{
  State, RaftNode, follower, leader, election_timer_loop, heartbeat_loop, emit_event, spawn,
  reset_election_timer,
}
use distributed_fault_tolera.Raft.Election.{eq_state}

pub record StartResult : Type 0 where
  pub index : ℕ
  pub term : ℕ
  pub accepted : Bool

pub record NodeStatus : Type 0 where
  pub id : ℤ
  pub state : State
  pub term : ℕ
  pub leader_id : ℤ
  pub last_log_index : ℕ
  pub commit_index : ℕ
  pub last_applied : ℕ
  pub alive : Bool

module _ {S : Type 0} where
  unfoldable pub start : Command → RaftNode S → RaftNode S × StartResult
  unfolding eq_state emit_event
  start command r =
      if not (eq_state r.state leader)
      then (r, record { index = 0; term = r.current_term; accepted = false })
      else let (l, entry) = append r.current_term command r.log in
        (
          emit_event log_appended (appended_at command.kind command.key entry.index) minus_one
              entry.index (record r { log = l }),
          record { index = entry.index; term = r.current_term; accepted = true },
        )

  -- A second call finds the channel closed, and only stops the timer again.
  unfoldable pub stop : RaftNode S → RaftNode S
  unfolding emit_event
  stop r =
      let r₁ =
        if r.stopped
        then r
        else emit_event node_stopped node_was_stopped minus_one 0 (record r { stopped = true }) in
      record r₁ { election_timer = record r₁.election_timer { active = false } }

  unfoldable pub restart : RaftNode S → RaftNode S
  unfolding emit_event spawn reset_election_timer
  restart r =
      if r.stopped
      then spawn heartbeat_loop (
          spawn election_timer_loop (
            reset_election_timer (
              emit_event node_restarted node_was_restarted minus_one 0
                (record r { stopped = false; state = follower; voted_for = minus_one }))))
      else r

  unfoldable pub set_apply_func : (Command → S → S) → RaftNode S → RaftNode S
  set_apply_func f r = record r { apply_func = some f }

  unfoldable pub set_peers : List (ℤ × Bytes) → RaftNode S → RaftNode S
  set_peers peers r = record r { peers = peers }

  unfoldable pub set_event_bus : RaftNode S → RaftNode S
  set_event_bus r = record r { event_bus = some List.[] }

  unfoldable pub status : RaftNode S → NodeStatus
  status r = record {
    id = r.id;
    state = r.state;
    term = r.current_term;
    leader_id = r.leader_id;
    last_log_index = last_index r.log;
    commit_index = r.commit_index;
    last_applied = r.last_applied;
    alive = not r.stopped;
  }
