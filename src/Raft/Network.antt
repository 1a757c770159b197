-- ===== src/Raft/Network.antt =====
-- The cluster of Raft/Cluster with the entry calls of kv-store/internal/raft/append_entries.go: a
-- node gets only calls that were sent to it, and only replies to its own calls. Calls and replies
-- can be lost, and can arrive late or twice. The entries of a call are a slice of the log's array,
-- and the goroutine for the call writes them out after the mutex is released; up to then the node's
-- log can overwrite them.
pub mod Lineage
pub mod Logs
pub mod Copies
pub mod History
pub mod Kept
pub mod Crowned
pub mod Calls
pub mod Writes
pub mod Matching
pub mod Overwritten
pub mod Shared
mod Examples
use distributed_fault_tolera.Prelude.{
  zero, suc, Bool, true, to_uint, ℕ, ◌+◌, ◌<◌, ◌^◌, List, [], ◌∷◌, ◌++◌, some, ◌≡◌, length,
  get_elem?, Bytes, ℤ, pos,
}
use distributed_fault_tolera.Raft.Log.{Command, LogEntry}
use distributed_fault_tolera.Raft.Node.{RaftNode, Env, new_raft_node}
use distributed_fault_tolera.Raft.Lifecycle.{set_peers}
use distributed_fault_tolera.Raft.AppendEntries.{AppendEntriesReply, append_entries}
use distributed_fault_tolera.Raft.Heartbeat.{Heartbeat, send_heartbeats}
use distributed_fault_tolera.Raft.Run.{
  NodeOp, get_append_reply, shut_down, get_entries, heartbeat, client_start, run_op,
}
use distributed_fault_tolera.Raft.Cluster.{System, Step, other, set_at, system_of}

-- `started` has the calls whose goroutines have not marshalled them, `sent` every call that was
-- marshalled, and `answers` those that were handled, each with its reply.
pub record Network (S : Type 0) : Type 0 where
  pub system : System S
  pub started : List Heartbeat
  pub sent : List Heartbeat
  pub answers : List (Heartbeat × AppendEntriesReply)

module _ {ℓ} {A : Type ℓ} where
  abbrev pub remove_elem : ℕ → List A → List A
  remove_elem n [] = []
  remove_elem zero (x ∷ xs) = xs
  remove_elem (suc n) (x ∷ xs) = x ∷ remove_elem n xs

  abbrev pub set_elem : ℕ → A → List A → List A
  set_elem n a [] = []
  set_elem zero a (x ∷ xs) = a ∷ xs
  set_elem (suc n) a (x ∷ xs) = x ∷ set_elem n a xs

-- The entry at place `k` of the call is now `e`.
abbrev pub with_entry : ℕ → LogEntry → Heartbeat → Heartbeat
with_entry k e h = record h { args = record h.args { entries = set_elem k e h.args.entries } }

-- The steps of the cluster in which no entry calls come or go and no client writes.
abbrev pub KeepsLog : NodeOp → Type 0
KeepsLog shut_down = Unit
KeepsLog _ = ⊥

module _ {S : Type 0} where
  abbrev pub KeepsLogs : {n : ℕ} {s s' : System S} → Step n s s' → Type 0
  KeepsLogs (other i op k) = KeepsLog op
  KeepsLogs _ = Unit

  -- Node `i` goes on by one of its handlers.
  abbrev pub handling : ℕ → NodeOp → System S → System S
  handling i op s = record s { nodes = set_at i (run_op op (s.nodes i)) s.nodes }

  -- The ticker of node `i` has fired, and it starts its calls.
  abbrev pub replicating : ℕ → Network S → Network S
  replicating i s = record s {
    system = handling i heartbeat s.system;
    started = s.started ++ (send_heartbeats (s.system.nodes i)).1;
  }

  -- The goroutine of the started call at place `q` marshals it.
  abbrev pub marshalling : ℕ → Heartbeat → Network S → Network S
  marshalling q h s = record s { started = remove_elem q s.started; sent = s.sent ++ (h ∷ []) }

  -- The log that the started call at place `q` shares its array with has written entry `k` of it.
  abbrev pub overwriting : ℕ → ℕ → Heartbeat → LogEntry → Network S → Network S
  overwriting q k h e s = record s { started = set_elem q (with_entry k e h) s.started }

  -- Node `j` handles the call.
  abbrev pub delivering : ℕ → Heartbeat → Network S → Network S
  delivering j h s = record s {
    system = handling j (get_entries h.args) s.system;
    answers = s.answers ++ ((h, (append_entries h.args (s.system.nodes j)).1) ∷ []);
  }

  -- The goroutine of node `i` for the call handles the reply.
  abbrev pub replying : ℕ → Heartbeat → AppendEntriesReply → Network S → Network S
  replying i h answer s = record s {
    system = handling i (get_append_reply h.peer h.args (some answer)) s.system;
  }

  abbrev pub writing : ℕ → Command → Network S → Network S
  writing i command s = record s { system = handling i (client_start command) s.system }

  -- `shared` says whether a log may overwrite the entries of started calls. It does so only where
  -- `TruncateFrom` and then `append` write within the array of the slice; an entry of the call then
  -- is the one that stands at its place in the log.
  pub data Move (shared : Bool) (n : ℕ) (s : Network S) : Network S → Type 0 where
    elect :
        {s' : System S} (step : Step n s.system s')
        → KeepsLogs step
        → Move shared n s (record s { system = s' })
    replicate : (i : ℕ) → Move shared n s (replicating i s)
    overwrite :
        (i q k : ℕ) {h : Heartbeat} {e : LogEntry}
        → shared ≡ true
        → get_elem? s.started q ≡ some h
        → h.args.leader_id ≡ pos i
        → k < length h.args.entries
        → get_elem? (s.system.nodes i).log.entries (to_uint h.args.prev_log_index + k) ≡ some e
        → Move shared n s (overwriting q k h e s)
    marshal :
        (q : ℕ) {h : Heartbeat}
        → get_elem? s.started q ≡ some h
        → Move shared n s (marshalling q h s)
    deliver :
        (j q : ℕ) {h : Heartbeat}
        → get_elem? s.sent q ≡ some h
        → h.peer ≡ pos j
        → Move shared n s (delivering j h s)
    reply :
        (i q : ℕ) {h : Heartbeat} {answer : AppendEntriesReply}
        → get_elem? s.answers q ≡ some (h, answer)
        → h.args.leader_id ≡ pos i
        → Move shared n s (replying i h answer s)
    write :
        (i : ℕ) (command : Command)
        → i < n
        → length (s.system.nodes i).log.entries + 1 < 2 ^ 63
        → (s.system.nodes i).current_term < 2 ^ 64
        → Move shared n s (writing i command s)

  abbrev pub network_of : (ℕ → RaftNode S) → Network S
  network_of nodes = record { system = system_of nodes; started = []; sent = []; answers = [] }

  abbrev pub network : List (ℤ × Bytes) → Env → S → Network S
  network peers env m = network_of (λ i. set_peers peers (new_raft_node (pos i) env m))

  pub data Moves (shared : Bool) (n : ℕ) (start : Network S) : Network S → Type 0 where
    here : Moves shared n start start
    next :
        {s s' : Network S} → Moves shared n start s → Move shared n s s' → Moves shared n start s'
