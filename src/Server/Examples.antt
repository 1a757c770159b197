-- ===== src/Server/Examples.antt =====
-- Three nodes start on a log of one record and two empty ones.
use distributed_fault_tolera.Prelude.{
  some, refl, ℕ, ◌+◌, ◌<◌, ◌^◌, Bytes, List, [], ◌∷◌, ◌++◌, map, none, ◌≡◌, arith,
}
use distributed_fault_tolera.Raft.Node.{Env, RaftNode, leader, new_raft_node, spawn}
use distributed_fault_tolera.Raft.Log.{last_index}
use distributed_fault_tolera.Raft.Election.{start_election, other_peers, vote_reply, count_vote}
use distributed_fault_tolera.Raft.Vote.{request_vote, is_candidate_log_up_to_date, last_log_term}
use distributed_fault_tolera.Raft.Lifecycle.{set_peers, set_apply_func, set_event_bus}
use distributed_fault_tolera.Raft.KvNode.{Machine, new_kv_node}
use distributed_fault_tolera.Raft.Cluster.{
  System, is_asked, answered, requesting, counting, reply_of, starting, late_time_out, request,
  count,
}
use distributed_fault_tolera.Raft.Network.{Network, Moves, here, next, elect, network_of}
use distributed_fault_tolera.Wal.Replay.{replay, replay_loop, read_full}
use distributed_fault_tolera.Wal.Replay.Recovery.{encode_all}
use distributed_fault_tolera.Prelude.{true}
use distributed_fault_tolera.Server.Safety.{node_at, start_up-one_leader}
use distributed_fault_tolera.Wal.Codec.{Record}
use distributed_fault_tolera.Wal.Codec.RoundTrip.{Fits}
use distributed_fault_tolera.Store.{Appended, seq, new_store}
use distributed_fault_tolera.HttpApi.{Nodes}
use distributed_fault_tolera.Server.{
  num_nodes, launch, make_node, open_nodes, peers_map, start_up, running, wal_failed,
}
use distributed_fault_tolera.Server.Started.{store_of_log, AllFresh, log_file, start_up_lem}

abbrev no_sum : Bytes → ℕ
no_sum b = 0

no_sum-range : (b : Bytes) → no_sum b < 2 ^ 32
no_sum-range b = omega arith

abbrev calm : ℕ → Env
calm i = record { now = 0; draw = i }

abbrev in_order : ℕ → ℕ → Appended
in_order i k = seq (1 + k)

abbrev put_k : Record
put_k = record { op = 1; key = 107 ∷ []; value = 118 ∷ [] }

put_k-Fits : Fits put_k
put_k-Fits = omega arith

abbrev logs : List (List Record)
logs = (put_k ∷ []) ∷ [] ∷ [] ∷ []

start_up_lem_example :
    ((nodes : Nodes) × (start_up no_sum calm in_order (map (log_file no_sum) logs) ≡ running nodes)
      × AllFresh 0 logs nodes)
    × (start_up no_sum calm in_order (map (log_file no_sum) logs ++ (none ∷ [])) ≡ wal_failed 3)
start_up_lem_example =
    start_up_lem no_sum no_sum-range calm in_order logs [] ((put_k-Fits, tt), (tt, (tt, tt)))

abbrev no_logs : List (List Record)
no_logs = [] ∷ [] ∷ [] ∷ []

abbrev fresh_node : ℕ → RaftNode Machine
fresh_node i = launch (make_node i (calm i) (in_order i) (store_of_log []))

abbrev trio : Nodes
trio = fresh_node 0 ∷ fresh_node 1 ∷ fresh_node 2 ∷ []

trio-start_up : start_up no_sum calm in_order (map (log_file no_sum) no_logs) ≡ running trio
unfolding start_up open_nodes new_store replay encode_all replay_loop read_full
trio-start_up = refl

abbrev begun : Network Machine
begun = network_of (node_at no_sum no_sum-range calm in_order trio)

abbrev asked_1 : System Machine
asked_1 =
    requesting 0 1 1 (answered (some (reply_of 0 1 1 (starting 0 begun.system))))
      (starting 0 begun.system)

abbrev elected : Network Machine
elected = record begun {
  system = counting 0 1 1 (some (reply_of 0 1 1 (starting 0 begun.system))) asked_1;
}

elected-Moves : Moves true num_nodes begun elected
unfolding start_election set_peers new_raft_node is_asked other_peers launch make_node new_kv_node
    set_apply_func set_event_bus spawn peers_map
elected-Moves =
    next
      (next (next here (elect (late_time_out 0 (omega arith) (omega arith)) tt))
        (elect (request 0 1 1 (omega arith) refl) tt))
      (elect (count 0 1 1 (omega arith) refl) tt)

elected-leader : (elected.system.nodes 0).state ≡ leader
unfolding start_election set_peers new_raft_node is_asked other_peers launch make_node new_kv_node
    set_apply_func set_event_bus spawn peers_map vote_reply request_vote is_candidate_log_up_to_date
    last_index last_log_term count_vote
elected-leader = refl

start_up-one_leader_example : ◌≡◌ {A = ℕ} 0 0
start_up-one_leader_example =
    start_up-one_leader no_sum no_sum-range calm in_order no_logs trio (tt, (tt, (tt, tt)))
      trio-start_up 0 0 elected-Moves (omega arith) (omega arith) elected-leader elected-leader refl
