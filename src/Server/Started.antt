-- ===== src/Server/Started.antt =====
-- What the nodes of a process know when it starts.
use distributed_fault_tolera.Prelude.{
  ℕ, ◌+◌, ◌<◌, ◌^◌, Bytes, List, [], ◌∷◌, ◌++◌, map, foldl, true, false, Option, none, some, ◌≡◌,
  refl, ap, ◌∙◌, arith, pos, minus_one, All, length,
}
use distributed_fault_tolera.Prelude.Assoc.{lookup}
use distributed_fault_tolera.Raft.Node.{
  RaftNode, Env, follower, new_raft_node, spawn, election_timer_loop,
}
use distributed_fault_tolera.Raft.Lifecycle.{set_peers, set_event_bus, set_apply_func}
use distributed_fault_tolera.Raft.KvNode.{Machine, new_kv_node, kv_get, apply_command}
use distributed_fault_tolera.Wal.Codec.{Record}
use distributed_fault_tolera.Wal.Codec.RoundTrip.{Fits}
use distributed_fault_tolera.Wal.Replay.{LogFile, done}
use distributed_fault_tolera.Wal.Replay.Recovery.{encode_all}
use distributed_fault_tolera.Wal.Commit.Recovered.{replay-whole}
use distributed_fault_tolera.Store.{Store, Appended, new_store, store_of, get_value, apply_record}
use distributed_fault_tolera.Store.Recovery.{written, apply_record-foldl}
use distributed_fault_tolera.HttpApi.{Nodes}
use distributed_fault_tolera.Server.{
  Start, running, wal_failed, store_failed, make_node, add_node, with_store, open_nodes, launch,
  launch_all, start_up, peers_map, num_nodes,
}

-- Node `i` as it starts on a log with these records: it runs, with its election timer, the store's
-- callback and an empty bus; of Raft it knows nothing but its id and its peers; and every key holds
-- what the records leave of it.
pub record Fresh (i : ℕ) (rs : List Record) (r : RaftNode Machine) : Type 0 where
  pub id : r.id ≡ pos i
  pub state : r.state ≡ follower
  pub term : r.current_term ≡ 0
  pub vote : r.voted_for ≡ minus_one
  pub log : r.log.entries ≡ []
  pub committed : r.commit_index ≡ 0
  pub applied : r.last_applied ≡ 0
  pub runs : r.stopped ≡ false
  pub timer : r.tasks ≡ election_timer_loop ∷ []
  pub callback : r.apply_func ≡ some apply_command
  pub bus : r.event_bus ≡ some []
  pub peers : r.peers ≡ peers_map 0 num_nodes
  pub values : (key : Bytes) → kv_get key r ≡ foldl (written key) none rs

-- The nodes from node `i` on.
pub data AllFresh : ℕ → List (List Record) → Nodes → Type 0 where
  none_left : {i : ℕ} → AllFresh i [] []
  one_more :
      {i : ℕ} {rs : List Record} {logs : List (List Record)} {r : RaftNode Machine} {nodes : Nodes}
      → Fresh i rs r
      → AllFresh (i + 1) logs nodes
      → AllFresh i (rs ∷ logs) (r ∷ nodes)

abbrev pub AllFit : List (List Record) → Type 0
AllFit logs = All (λ rs. All Fits rs) logs

launch_all-add :
    (r : RaftNode Machine) (nodes : Nodes) (rest : Start)
    → launch_all rest ≡ running nodes
    → launch_all (add_node r rest) ≡ running (launch r ∷ nodes)
unfolding launch_all add_node
launch_all-add r nodes (running rs) e = ground (arith, e)
launch_all-add r nodes (wal_failed i) e = ground (arith, e)
launch_all-add r nodes (store_failed i) e = ground (arith, e)

-- The store that is opened on the records.
abbrev pub store_of_log : List Record → Store
store_of_log rs = record { values = foldl apply_record [] rs; next_apply_seq = 1; pending = [] }

abbrev pub log_file : (Bytes → ℕ) → List Record → Option LogFile
log_file crc rs = some (record { contents = encode_all crc rs; seeks = true })

module _ (crc : Bytes → ℕ) (crc_range : (b : Bytes) → crc b < 2 ^ 32) (env : ℕ → Env)
    (results : ℕ → ℕ → Appended) where
  new_store-whole :
      (rs : List Record)
      → All Fits rs
      → new_store crc (record { contents = encode_all crc rs; seeks = true })
        ≡ done (store_of_log rs)
  unfolding new_store
  new_store-whole rs fit = ap store_of (replay-whole crc crc_range rs fit)

  pub launch-Fresh :
      (i : ℕ) (rs : List Record)
      → Fresh i rs (launch (make_node i (env i) (results i) (store_of_log rs)))
  unfolding launch make_node new_raft_node set_peers set_event_bus new_kv_node spawn kv_get
      get_value set_apply_func lookup
  launch-Fresh i rs = record {
    id = refl;
    state = refl;
    term = refl;
    vote = refl;
    log = refl;
    committed = refl;
    applied = refl;
    runs = refl;
    timer = refl;
    callback = refl;
    bus = refl;
    peers = refl;
    values = λ key. apply_record-foldl key [] rs;
  }

  -- The nodes from node `i` on are fresh once they are launched.
  Opened : ℕ → List (List Record) → Start → Type 0
  Opened i logs out = (nodes : Nodes) × (launch_all out ≡ running nodes) × AllFresh i logs nodes

  open_nodes-Opened :
      (i : ℕ) (logs : List (List Record))
      → AllFit logs
      → Opened i logs (open_nodes crc env results i (map (log_file crc) logs))
  unfolding open_nodes with_store add_node launch_all Opened
  open_nodes-Opened i [] fit = ([], refl, none_left)
  open_nodes-Opened i (rs ∷ logs) (fit, fits) =
      let (nodes, launched, fresh) = open_nodes-Opened (i + 1) logs fits in
      let rest = open_nodes crc env results (i + 1) (map (log_file crc) logs) in
      let r = make_node i (env i) (results i) (store_of_log rs) in
      (
        launch r ∷ nodes,
        ap (λ s. launch_all (with_store crc env results i rest s)) (new_store-whole rs fit)
            ∙ launch_all-add r nodes rest launched,
        one_more (launch-Fresh i rs) fresh,
      )

  open_nodes-failed :
      (i : ℕ) (logs : List (List Record)) (others : List (Option LogFile))
      → AllFit logs
      → open_nodes crc env results i (map (log_file crc) logs ++ (none ∷ others))
        ≡ wal_failed (i + length logs)
  unfolding open_nodes with_store add_node
  open_nodes-failed i [] others fit = ap wal_failed (omega arith)
  open_nodes-failed i (rs ∷ logs) others (fit, fits) =
      let rest = open_nodes crc env results (i + 1) (map (log_file crc) logs ++ (none ∷ others)) in
      let n : i + 1 + length logs ≡ i + length (rs ∷ logs) = omega arith in
      ap (with_store crc env results i rest) (new_store-whole rs fit)
      ∙ ap (add_node (make_node i (env i) (results i) (store_of_log rs)))
          (open_nodes-failed (i + 1) logs others fits ∙ ap wal_failed n)

  -- The process starts on logs of whole records. If all of them open, every node runs, with the
  -- election timer as its only goroutine, the store's callback and the bus set, knows nothing of
  -- earlier terms, votes and entries, has committed and applied nothing, and holds for each key what
  -- the records of its own log leave of it. If a log does not open, nothing runs, whatever comes
  -- after it.
  pub start_up_lem :
      (logs : List (List Record)) (others : List (Option LogFile))
      → AllFit logs
      → ((nodes : Nodes) × (start_up crc env results (map (log_file crc) logs) ≡ running nodes)
          × AllFresh 0 logs nodes)
        × (start_up crc env results (map (log_file crc) logs ++ (none ∷ others))
            ≡ wal_failed (length logs))
  unfolding start_up launch_all Opened
  start_up_lem logs others fit = (
    open_nodes-Opened 0 logs fit,
    ap launch_all (open_nodes-failed 0 logs others fit) ∙ ap wal_failed (omega arith),
  )
