-- ===== src/Raft/Node.antt =====
-- kv-store/internal/raft/node.go: the state of a node, and the parts that its handlers share.
-- A handler runs under the node's mutex from start to end, so it is a function on the state. `env`
-- holds what the outside answers during the handler: the clock, and the draw of `rand.Intn(500)`.
use mathlib.Core.Option
use distributed_fault_tolera.Prelude.{
  ℕ, ◌+◌, Bytes, List, [], ◌∷◌, ◌++◌, map, Bool, true, false, Option, none, ℤ, minus_one, inc,
}
use distributed_fault_tolera.Events.{
  EventType, Message, Event, became_candidate, became_leader, node_became_candidate,
  node_became_leader,
}
use distributed_fault_tolera.Raft.Log.{Command, RaftLog, last_index}

pub data State : Type 0 where
  follower candidate leader : State

-- A `time.Timer`: whether it runs, and the duration that it was last set to, in milliseconds.
pub record Timer : Type 0 where
  pub active : Bool
  pub duration : ℕ

-- The goroutines that a handler starts.
pub data Task : Type 0 where
  election_timer_loop heartbeat_loop : Task

pub record Env : Type 0 where
  pub now : ℕ
  pub draw : ℕ

-- `machine` is what the callback `applyFunc` writes to. `event_bus` holds what the node has
-- published on its bus, `none` for a node with no bus. `stopped` says that `stopCh` is closed.
pub record RaftNode (S : Type 0) : Type 0 where
  pub id : ℤ
  pub state : State
  pub current_term : ℕ
  pub voted_for : ℤ
  pub election_timer : Timer
  pub log : RaftLog
  pub next_index : List (ℤ × ℕ)
  pub match_index : List (ℤ × ℕ)
  pub commit_index : ℕ
  pub last_applied : ℕ
  pub peers : List (ℤ × Bytes)
  pub apply_func : Option (Command → S → S)
  pub machine : S
  pub stopped : Bool
  pub leader_id : ℤ
  pub event_bus : Option (List Event)
  pub tasks : List Task
  pub env : Env

abbrev pub random_election_timeout : Env → ℕ
random_election_timeout env = 500 + env.draw

module _ {S : Type 0} where
  unfoldable pub new_raft_node : ℤ → Env → S → RaftNode S
  new_raft_node i env s = record {
    id = i;
    state = follower;
    current_term = 0;
    voted_for = minus_one;
    election_timer = record { active = true; duration = random_election_timeout env };
    log = record { entries = [] };
    next_index = [];
    match_index = [];
    commit_index = 0;
    last_applied = 0;
    peers = [];
    apply_func = none;
    machine = s;
    stopped = false;
    leader_id = minus_one;
    event_bus = none;
    tasks = [];
    env = env;
  }

  unfoldable pub emit_event : EventType → Message → ℤ → ℕ → RaftNode S → RaftNode S
  emit_event kind message peer index r =
      let event : Event = record {
        timestamp = r.env.now;
        node_id = r.id;
        kind = kind;
        term = r.current_term;
        message = message;
        peer_id = peer;
        log_index = index;
      } in
      record r { event_bus = Option.map (λ es. es ++ (event ∷ [])) r.event_bus }

  -- Stop and reset leave the timer running at the new duration.
  unfoldable pub reset_election_timer : RaftNode S → RaftNode S
  reset_election_timer r = record r {
    election_timer = record { active = true; duration = random_election_timeout r.env };
  }

  unfoldable pub spawn : Task → RaftNode S → RaftNode S
  spawn t r = record r { tasks = r.tasks ++ (t ∷ []) }

  unfoldable pub become_candidate : RaftNode S → RaftNode S
  unfolding emit_event
  become_candidate r =
      emit_event became_candidate node_became_candidate minus_one 0
        (record r { state = candidate; current_term = inc r.current_term; voted_for = r.id })

  -- The keys of a Go map differ, so setting one index for each peer gives one pair for each peer.
  unfoldable pub become_leader : RaftNode S → RaftNode S
  unfolding emit_event spawn
  become_leader r =
      let next = inc (last_index r.log) in
      spawn heartbeat_loop (
        emit_event became_leader node_became_leader minus_one 0 (record r {
          state = leader;
          leader_id = r.id;
          next_index = map (λ (p : ℤ × Bytes). (p.0, next)) r.peers;
          match_index = map (λ (p : ℤ × Bytes). (p.0, 0)) r.peers;
        }))
