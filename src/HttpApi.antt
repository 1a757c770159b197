-- ===== src/HttpApi.antt =====
-- kv-store/internal/httpapi/handler.go: requests, answers, and the handlers of the cluster. A
-- request is handled with nothing in between; what net/http and encoding/json do around a handler
-- is given by arguments.
pub mod Text
pub mod Control
pub mod Stream
pub mod Routes
pub mod Writes
mod Examples
use distributed_fault_tolera.Prelude.{
  ℕ, zero, suc, ◌+◌, Bytes, List, [], ◌∷◌, map, Bool, true, false, ◌&&◌, not, Option, none, some, ℤ,
  pos, negsuc, eq_bytes, get_elem?, if◌then◌else◌,
}
use distributed_fault_tolera.Events.{Event}
use distributed_fault_tolera.Events.Bus.{Bus}
use distributed_fault_tolera.Raft.Node.{State, RaftNode, leader}
use distributed_fault_tolera.Raft.Election.{eq_state}
use distributed_fault_tolera.Raft.Lifecycle.{NodeStatus, status, stop, restart}
use distributed_fault_tolera.Raft.KvNode.{Machine, kv_set, kv_delete, kv_get}
use distributed_fault_tolera.HttpApi.Text.{codes, trim_prefix, split_slash, atoi}

pub record Request : Type 0 where
  pub method : Bytes
  pub path : Bytes
  pub body : Bytes

pub data Problem : Type 0 where
  missing_key no_alive_nodes method_not_allowed key_not_found invalid_body : Problem
  missing_node_id invalid_node_id not_found : Problem

pub data Action : Type 0 where
  already_stopped killed already_running restarted : Action

-- The JSON values that the handlers write.
pub data Body : Type 0 where
  problem : Problem → Body
  not_leader : (leader : ℤ) → Body
  value_of : (key value : Bytes) → Body
  accepted : (key value : Bytes) (leader : ℤ) (index : ℕ) → Body
  deleted : (key : Bytes) (leader : ℤ) (index : ℕ) → Body
  nodes : List NodeStatus → Body
  node : NodeStatus → Body
  action : (id : ℤ) → Action → (success : Bool) → Body
  empty : Body

pub record Response : Type 0 where
  pub code : ℕ
  pub body : Body

abbrev pub http_error : ℕ → Problem → Response
http_error code p = record { code = code; body = problem p }

-- `KVNodes[i]` is the store's view of `RaftNodes[i]`, so the two are one list.
abbrev pub Nodes : Type 0
Nodes = List (RaftNode Machine)

abbrev pub is_running_leader : RaftNode Machine → Bool
is_running_leader r = not r.stopped && eq_state r.state leader

abbrev pub is_running : RaftNode Machine → Bool
is_running r = not r.stopped

pub next_place : Option (ℕ × RaftNode Machine) → Option (ℕ × RaftNode Machine)
next_place none = none
next_place (some (i, r)) = some (suc i, r)

-- The first node that passes the test, with its place.
unfoldable pub find_node : (RaftNode Machine → Bool) → Nodes → Option (ℕ × RaftNode Machine)
unfolding next_place
find_node test [] = none
find_node test (r ∷ rs) =
    let later = next_place (find_node test rs) in if test r then some (0, r) else later

unfoldable pub set_node : ℕ → RaftNode Machine → Nodes → Nodes
set_node i r [] = []
set_node zero r (x ∷ xs) = r ∷ xs
set_node (suc i) r (x ∷ xs) = x ∷ set_node i r xs

unfoldable pub find_leader_kv_node : Nodes → Option (ℕ × RaftNode Machine)
find_leader_kv_node rs = find_node is_running_leader rs

unfoldable pub find_any_alive_kv_node : Nodes → Option (ℕ × RaftNode Machine)
find_any_alive_kv_node rs = find_node is_running rs

pub get_answer : Bytes → Option Bytes → Response
get_answer key none = http_error 404 key_not_found
get_answer key (some value) = record { code = 200; body = value_of key value }

unfoldable pub handle_get : Bytes → Nodes → Response
unfolding get_answer
handle_get key rs = elim (find_any_alive_kv_node rs) [
  | none ↦ http_error 503 no_alive_nodes
  | some (i, r) ↦ get_answer key (kv_get key r)
]

-- The status of a refused write is `http.StatusTemporaryRedirect`.
pub put_answer : Bytes → Bytes → Bool × ℤ × ℕ → Response
put_answer key value (false, at, index) = record { code = 307; body = not_leader at }
put_answer key value (true, at, index) = record { code = 200; body = accepted key value at index }

pub delete_answer : Bytes → Bool × ℤ × ℕ → Response
delete_answer key (false, at, index) = record { code = 307; body = not_leader at }
delete_answer key (true, at, index) = record { code = 200; body = deleted key at index }

-- `decode` is the JSON decoder on a body that holds a value, `none` for an error.
pub put_value : Bytes → Option Bytes → ℕ × RaftNode Machine → Nodes → Nodes × Response
put_value key none (i, r) rs = (rs, http_error 400 invalid_body)
put_value key (some value) (i, r) rs =
    let (r', ok, at, index) = kv_set key value r.leader_id r in
    (set_node i r' rs, put_answer key value (ok, at, index))

unfoldable pub handle_delete : Bytes → ℕ × RaftNode Machine → Nodes → Nodes × Response
unfolding delete_answer
handle_delete key (i, r) rs =
    let (r', ok, at, index) = kv_delete key r.leader_id r in
    (set_node i r' rs, delete_answer key (ok, at, index))

-- A node that a write can go to: the first that runs and is a leader, or else the first that runs.
unfoldable pub entry_node : Nodes → Option (ℕ × RaftNode Machine)
entry_node rs = elim (find_leader_kv_node rs) [
  | none ↦ find_any_alive_kv_node rs
  | some entry ↦ some entry
]

module _ (decode : Bytes → Option Bytes) where
  unfoldable pub handle_put : Bytes → Bytes → ℕ × RaftNode Machine → Nodes → Nodes × Response
  unfolding put_value put_answer
  handle_put key body entry rs = put_value key (decode body) entry rs

  -- The switch on the method, with the node that a write goes to.
  pub kv_method : Bytes → Request → ℕ × RaftNode Machine → Nodes → Nodes × Response
  kv_method key req entry rs =
      if eq_bytes req.method (codes "GET")
      then (rs, handle_get key rs)
      else if eq_bytes req.method (codes "PUT")
      then handle_put key req.body entry rs
      else if eq_bytes req.method (codes "DELETE")
      then handle_delete key entry rs
      else (rs, http_error 405 method_not_allowed)

  pub kv_at : Bytes → Request → Option (ℕ × RaftNode Machine) → Nodes → Nodes × Response
  kv_at key req none rs = (rs, http_error 503 no_alive_nodes)
  kv_at key req (some entry) rs = kv_method key req entry rs

  unfoldable pub kv_handler : Request → Nodes → Nodes × Response
  unfolding kv_at kv_method
  kv_handler req rs =
      let key = trim_prefix (codes "/kv/") req.path in
      if eq_bytes key [] then (rs, http_error 400 missing_key) else kv_at key req (entry_node rs) rs
