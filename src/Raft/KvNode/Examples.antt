-- ===== src/Raft/KvNode/Examples.antt =====
-- A node that has a put and a delete to apply.
use distributed_fault_tolera.Prelude.{
  ◌+◌, ◌-◌, List, [], ◌∷◌, take, drop, foldl, ◌≡◌, refl, ap, arith, pos, eq_bytes,
}
use distributed_fault_tolera.Prelude.Assoc.{lookup}
use distributed_fault_tolera.Raft.Log.{LogEntry}
use distributed_fault_tolera.Raft.Node.{RaftNode, new_raft_node}
use distributed_fault_tolera.Raft.AppendEntries.{apply_committed}
use distributed_fault_tolera.Raft.Lifecycle.{set_apply_func}
use distributed_fault_tolera.Raft.KvNode.{Machine, new_kv_node, kv_get, set_command, delete_command}
use distributed_fault_tolera.Raft.KvNode.Applied.{Follows, commanded, apply_committed-kv_get}
use distributed_fault_tolera.Store.{seq}
use distributed_fault_tolera.Store.Order.{empty_queue}

abbrev fresh_machine : Machine
fresh_machine = record { store = empty_queue 1 []; results = λ k. seq (1 + k); appends = 0 }

abbrev two_entries : List LogEntry
two_entries =
    record { index = 1; term = 1; command = set_command (b'a' ∷ []) (b'1' ∷ []) }
    ∷ record { index = 2; term = 1; command = delete_command (b'b' ∷ []) }
    ∷ []

abbrev pub kv_node : RaftNode Machine
kv_node =
    let r = new_kv_node (new_raft_node (pos 0) (record { now = 0; draw = 0 }) fresh_machine) in
    record r { log = record { entries = two_entries }; commit_index = 2 }

fresh_machine-Follows : Follows 1 [] fresh_machine
fresh_machine-Follows = record {
  store = refl;
  results = λ k. let same : 1 + (0 + k) ≡ 1 + k = omega arith in ap seq same;
}

apply_committed-kv_get_example :
    kv_get (b'a' ∷ []) (apply_committed kv_node)
    ≡ lookup eq_bytes (b'a' ∷ []) (
        foldl commanded [] (
          take
            (kv_node.commit_index - kv_node.last_applied)
            (drop kv_node.last_applied kv_node.log.entries)))
unfolding new_kv_node set_apply_func new_raft_node
apply_committed-kv_get_example =
    apply_committed-kv_get 1 [] kv_node (b'a' ∷ []) fresh_machine-Follows refl (omega arith)
      (omega arith) (omega arith) (omega arith)
