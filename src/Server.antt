-- ===== src/Server.antt =====
-- kv-store/cmd/server/main.go: the start of three nodes in one process, the handler that it serves,
-- and the shutdown. A log that cannot be opened is `none`; what is printed is left out.
pub mod Started
pub mod Safety
mod Examples
use distributed_fault_tolera.Prelude.{
  ℕ, zero, suc, ◌+◌, Bytes, List, [], ◌∷◌, ◌++◌, map, Bool, true, false, ◌||◌, Option, none, some,
  ℤ, pos, eq_bytes, if◌then◌else◌,
}
use distributed_fault_tolera.Raft.Node.{RaftNode, Env, new_raft_node, spawn, election_timer_loop}
use distributed_fault_tolera.Raft.Lifecycle.{set_peers, set_event_bus, stop}
use distributed_fault_tolera.Raft.KvNode.{Machine, new_kv_node}
use distributed_fault_tolera.Wal.Replay.{LogFile, Replayed, done, failed, stuck}
use distributed_fault_tolera.Wal.Commit.{Wal, close_queue}
use distributed_fault_tolera.Store.{Store, Appended, new_store}
use distributed_fault_tolera.HttpApi.Text.{codes, show_int}
use distributed_fault_tolera.HttpApi.{Request, Response, Nodes, empty}
use distributed_fault_tolera.HttpApi.Routes.{has_prefix}

abbrev pub num_nodes : ℕ
num_nodes = 3

-- What comes of the start: the node whose log does not open, or whose store does not, or all nodes.
pub data Start : Type 0 where
  wal_failed store_failed : ℕ → Start
  running : Nodes → Start

-- The loop that fills `peersMap`, for `n` nodes from node `i` on.
unfoldable pub peers_map : ℕ → ℕ → List (ℤ × Bytes)
peers_map i zero = []
peers_map i (suc n) =
    (pos i, codes "http://localhost:" ++ show_int (pos (9000 + i))) ∷ peers_map (i + 1) n

-- `results` is what `wal.Append` will return to the node's store, call by call.
unfoldable pub make_node : ℕ → Env → (ℕ → Appended) → Store → RaftNode Machine
make_node i env results s =
    set_event_bus (new_raft_node (pos i) env (record { store = s; results = results; appends = 0 }))

pub add_node : RaftNode Machine → Start → Start
add_node r (running rs) = running (r ∷ rs)
add_node r (wal_failed i) = wal_failed i
add_node r (store_failed i) = store_failed i

-- The loops over the nodes: the peers, the store's callback, the election timer.
unfoldable pub launch : RaftNode Machine → RaftNode Machine
launch r = spawn election_timer_loop (new_kv_node (set_peers (peers_map 0 num_nodes) r))

pub launch_all : Start → Start
launch_all (running rs) = running (map (λ r. launch r) rs)
launch_all (wal_failed i) = wal_failed i
launch_all (store_failed i) = store_failed i

module _ (crc : Bytes → ℕ) (env : ℕ → Env) (results : ℕ → ℕ → Appended) where
  -- `rest` is what comes of the nodes after node `i`.
  pub with_store : ℕ → Start → Replayed Store → Start
  with_store i rest (done s) = add_node (make_node i (env i) (results i) s) rest
  with_store i rest (failed e) = store_failed i
  with_store i rest stuck = store_failed i

  -- The loop that opens the logs and makes the nodes, from node `i` on.
  unfoldable pub open_nodes : ℕ → List (Option LogFile) → Start
  unfolding with_store add_node
  open_nodes i [] = running []
  open_nodes i (none ∷ files) = wal_failed i
  open_nodes i (some file ∷ files) = with_store i (open_nodes (i + 1) files) (new_store crc file)

  unfoldable pub start_up : List (Option LogFile) → Start
  unfolding launch_all
  start_up files = launch_all (open_nodes 0 files)

-- The mux in front of the API where the frontend's files are there; `redirect` and `file_server` are
-- its redirections and the server of the files.
unfoldable pub with_frontend :
    (Request → Option Response)
    → (Request → Response)
    → (Request → Nodes → Nodes × Response)
    → Request
    → Nodes
    → Nodes × Response
with_frontend redirect file_server handler req rs =
    if eq_bytes req.method (codes "OPTIONS")
    then (rs, record { code = 200; body = empty })
    else elim (redirect req) [
      | some answer ↦ (rs, answer)
      | none ↦
          if has_prefix (codes "/kv/") req.path
            || eq_bytes req.path (codes "/cluster")
            || has_prefix (codes "/nodes/") req.path
            || eq_bytes req.path (codes "/events")
          then handler req rs
          else (rs, file_server req)
    ]

-- The loop over the logs: each `Close` closes the queue and waits for the log's goroutine. `wait` is
-- the log at the goroutine's end, or `none` where it never ends; then the loop stays at this log.
-- The Boolean says that the loop has come to its end.
unfoldable pub close_all : (Wal → Option Wal) → List Wal → List Wal × Bool
close_all wait [] = ([], true)
close_all wait (w ∷ ws) =
    let closed = if w.closed then some w else wait (close_queue w) in
    let (rest, ended) = close_all wait ws in
    elim closed [ none ↦ (close_queue w ∷ ws, false) | some w' ↦ (w' ∷ rest, ended) ]

-- On a signal: the nodes stop, and then the logs close, one after the other. The process exits if
-- the Boolean is true.
unfoldable pub shut_down_all : (Wal → Option Wal) → Nodes → List Wal → Nodes × (List Wal × Bool)
shut_down_all wait rs ws = (map (λ r. stop r) rs, close_all wait ws)
