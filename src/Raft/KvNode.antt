-- ===== src/Raft/KvNode.antt =====
-- kv-store/internal/raft/kv_node.go: a node whose state machine is a store.
pub mod Applied
pub mod Clients
pub mod Examples
use distributed_fault_tolera.Prelude.{
  [], not, ℕ, ◌+◌, Bytes, Bool, true, false, Option, none, some, ℤ, ◌==◌, if◌then◌else◌,
}
use distributed_fault_tolera.Raft.Log.{Command, command_set, command_delete}
use distributed_fault_tolera.Raft.Node.{RaftNode}
use distributed_fault_tolera.Raft.Lifecycle.{StartResult, start, set_apply_func}
use distributed_fault_tolera.Store.{Store, Appended, apply_put, apply_delete, get_value}

-- What the callback works on: the store, and the results of `wal.Append`, which the callback calls
-- once for each command. `appends` counts its calls.
pub record Machine : Type 0 where
  pub store : Store
  pub results : ℕ → Appended
  pub appends : ℕ

-- The callback; it drops the errors of the store.
unfoldable pub apply_command : Command → Machine → Machine
apply_command c m =
    if c.kind == command_set
    then record m {
      store = (apply_put c.key c.value (m.results m.appends) m.store).0;
      appends = m.appends + 1;
    }
    else if c.kind == command_delete
    then record m {
      store = (apply_delete c.key (m.results m.appends) m.store).0;
      appends = m.appends + 1;
    }
    else m

unfoldable pub new_kv_node : RaftNode Machine → RaftNode Machine
new_kv_node r = set_apply_func apply_command r

abbrev pub set_command : Bytes → Bytes → Command
set_command key value = record { kind = command_set; key = key; value = value }

abbrev pub delete_command : Bytes → Command
delete_command key = record { kind = command_delete; key = key; value = [] }

-- The answer to a client: whether the node is the leader, whom it takes for the leader, the index.
-- The node may go on between `Start` and `LeaderID`, whose result is `leader`.
unfoldable pub answer : ℤ → RaftNode Machine × StartResult → RaftNode Machine × Bool × ℤ × ℕ
answer leader (r, result) =
    if not result.accepted then (r, false, leader, 0) else (r, true, leader, result.index)

unfoldable pub kv_set : Bytes → Bytes → ℤ → RaftNode Machine → RaftNode Machine × Bool × ℤ × ℕ
kv_set key value leader r = answer leader (start (set_command key value) r)

unfoldable pub kv_delete : Bytes → ℤ → RaftNode Machine → RaftNode Machine × Bool × ℤ × ℕ
kv_delete key leader r = answer leader (start (delete_command key) r)

unfoldable pub kv_get : Bytes → RaftNode Machine → Option Bytes
kv_get key r = get_value key r.machine.store
