-- ===== src/Server/Safety.antt =====
-- The nodes that the process starts are a cluster whose terms have one leader each.
use distributed_fault_tolera.Prelude.{
  Bool, ℕ, zero, suc, ◌+◌, ◌<◌, ◌^◌, Bytes, List, [], map, Option, none, some, ◌≡◌, refl, ap, sym,
  ◌∙◌, subst, arith, length, get_elem?,
}
use distributed_fault_tolera.Raft.Node.{RaftNode, Env, leader}
use distributed_fault_tolera.Raft.KvNode.{Machine}
use distributed_fault_tolera.Raft.Cluster.Steps.{IsNew, system_of-Inv}
use distributed_fault_tolera.Raft.Cluster.Safety.{leaders-same}
use distributed_fault_tolera.Raft.Network.{Network, Moves, network_of}
use distributed_fault_tolera.Raft.Network.Matching.{Moves-Inv}
use distributed_fault_tolera.Wal.Codec.{Record}
use distributed_fault_tolera.Store.{Appended}
use distributed_fault_tolera.HttpApi.{Nodes}
use distributed_fault_tolera.Server.{launch, make_node, running, start_up, peers_map, num_nodes}
use distributed_fault_tolera.Server.Started.{
  Fresh, AllFresh, none_left, one_more, AllFit, log_file, store_of_log, launch-Fresh, start_up_lem,
}

Fresh-IsNew : {i : ℕ} {rs : List Record} {r : RaftNode Machine} → Fresh i rs r → IsNew num_nodes i r
unfolding peers_map
Fresh-IsNew f = record { id = f.id; size = ap length f.peers; state = f.state }

AllFresh-at :
    {k : ℕ} {logs : List (List Record)} {nodes : Nodes} (i : ℕ) {r : RaftNode Machine}
    → AllFresh k logs nodes
    → get_elem? nodes i ≡ some r
    → IsNew num_nodes (k + i) r
AllFresh-at i none_left e = cc
AllFresh-at {k} zero {r} (one_more {r = r'} f all) e =
    let same : r' ≡ r = cc in
    let n : k ≡ k + 0 = omega arith in
    subst (λ m. IsNew num_nodes m r) n (subst (IsNew num_nodes k) same (Fresh-IsNew f))
AllFresh-at {k} (suc i) {r} (one_more f all) e =
    let n : k + 1 + i ≡ k + suc i = omega arith in
    subst (λ m. IsNew num_nodes m r) n (AllFresh-at i all e)

module _ (crc : Bytes → ℕ) (crc_range : (b : Bytes) → crc b < 2 ^ 32) (env : ℕ → Env)
    (results : ℕ → ℕ → Appended) where
  -- The nodes by their places; those past the last one take no part in anything.
  abbrev pub node_at : Nodes → ℕ → RaftNode Machine
  node_at nodes i = elim (get_elem? nodes i) [
    | some r ↦ r
    | none ↦ launch (make_node i (env i) (results i) (store_of_log []))
  ]

  node_at-IsNew :
      {logs : List (List Record)} {nodes : Nodes}
      → AllFresh 0 logs nodes
      → (i : ℕ) → IsNew num_nodes i (node_at nodes i)
  node_at-IsNew {nodes = nodes} all i = go (get_elem? nodes i) refl
    where
      choose : Option (RaftNode Machine) → RaftNode Machine
      choose o = elim o [
        | some r ↦ r
        | none ↦ launch (make_node i (env i) (results i) (store_of_log []))
      ]

      go : (o : Option (RaftNode Machine)) → get_elem? nodes i ≡ o → IsNew num_nodes i (choose o)
      go none e = Fresh-IsNew (launch-Fresh crc crc_range env results i [])
      go (some r) e =
          let n : 0 + i ≡ i = omega arith in
          subst (λ m. IsNew num_nodes m r) n (AllFresh-at i all e)

  -- The process has started on logs of whole records. Then whatever the order of the steps of its
  -- nodes and whatever calls are lost, late or repeated, and whether or not a log overwrites a call
  -- that is not marshalled, as long as none is restarted, two leaders of one term are the same node.
  pub start_up-one_leader :
      (logs : List (List Record)) (nodes : Nodes)
      → AllFit logs
      → start_up crc env results (map (log_file crc) logs) ≡ running nodes
      → {shared : Bool} {s : Network Machine} (i k : ℕ)
      → Moves shared num_nodes (network_of (node_at nodes)) s
      → i < num_nodes
      → k < num_nodes
      → (s.system.nodes i).state ≡ leader
      → (s.system.nodes k).state ≡ leader
      → (s.system.nodes i).current_term ≡ (s.system.nodes k).current_term
      → i ≡ k
  start_up-one_leader logs nodes fit started i k moves =
      let (these, begun, fresh) = (start_up_lem crc crc_range env results logs [] fit).0 in
      let same : these ≡ nodes = running_inj (sym begun ∙ started) in
      let new = node_at-IsNew (subst (AllFresh 0 logs) same fresh) in
      leaders-same num_nodes i k
        (Moves-Inv num_nodes (system_of-Inv num_nodes (node_at nodes) new) moves)
    where
      running_inj : {xs ys : Nodes} → running xs ≡ running ys → xs ≡ ys
      running_inj e = cc
