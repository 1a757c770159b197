-- ===== src/HttpApi/Control.antt =====
-- The handlers of /cluster and /nodes/ in kv-store/internal/httpapi/handler.go.
pub mod Paths
use distributed_fault_tolera.Prelude.{
  ℕ, zero, suc, Bytes, List, [], ◌∷◌, map, Bool, true, false, ◌&&◌, not, Option, none, some, ℤ, pos,
  negsuc, eq_bytes, get_elem?, if◌then◌else◌,
}
use distributed_fault_tolera.Raft.Node.{RaftNode}
use distributed_fault_tolera.Raft.Lifecycle.{status, stop, restart}
use distributed_fault_tolera.Raft.KvNode.{Machine}
use distributed_fault_tolera.HttpApi.Text.{codes, trim_prefix, split_slash, atoi}
use distributed_fault_tolera.HttpApi.{
  Request, method_not_allowed, missing_node_id, invalid_node_id, not_found, Action, already_stopped,
  killed, already_running, restarted, node, nodes, action, Response, http_error, Nodes, set_node,
}

unfoldable pub cluster_handler : Request → Nodes → Response
cluster_handler req rs =
    if not (eq_bytes req.method (codes "GET"))
    then http_error 405 method_not_allowed
    else record { code = 200; body = nodes (map (λ r. status r) rs) }

abbrev pub done_with : ℕ → Action → Bool → Response
done_with i a success = record { code = 200; body = action (pos i) a success }

unfoldable pub kill_node : ℕ → RaftNode Machine → Nodes → Nodes × Response
kill_node i r rs =
    if r.stopped
    then (rs, done_with i already_stopped false)
    else (set_node i (stop r) rs, done_with i killed true)

unfoldable pub restart_node : ℕ → RaftNode Machine → Nodes → Nodes × Response
restart_node i r rs =
    if not r.stopped
    then (rs, done_with i already_running false)
    else (set_node i (restart r) rs, done_with i restarted true)

-- What follows the id in the path: nothing, an action, or more.
unfoldable pub node_action : Bytes → List Bytes → ℕ → RaftNode Machine → Nodes → Nodes × Response
unfolding kill_node restart_node
node_action method [] i r rs =
    if not (eq_bytes method (codes "GET"))
    then (rs, http_error 405 method_not_allowed)
    else (rs, record { code = 200; body = node (status r) })
node_action method (a ∷ []) i r rs =
    if eq_bytes a (codes "kill") && eq_bytes method (codes "POST")
    then kill_node i r rs
    else if eq_bytes a (codes "restart") && eq_bytes method (codes "POST")
    then restart_node i r rs
    else (rs, http_error 404 not_found)
node_action method (a ∷ b ∷ parts) i r rs = (rs, http_error 404 not_found)

-- `id < 0 || id >= len(cluster.RaftNodes)` is `none`.
unfoldable pub node_of : Option ℤ → Nodes → Option (ℕ × RaftNode Machine)
node_of none rs = none
node_of (some (negsuc n)) rs = none
node_of (some (pos n)) rs = elim (get_elem? rs n) [ none ↦ none | some r ↦ some (n, r) ]

unfoldable pub at_node :
    Bytes → List Bytes → Option (ℕ × RaftNode Machine) → Nodes → Nodes × Response
at_node method parts none rs = (rs, http_error 400 invalid_node_id)
at_node method parts (some (i, r)) rs = node_action method parts i r rs

unfoldable pub at_parts : Bytes → List Bytes → Nodes → Nodes × Response
at_parts method [] rs = (rs, http_error 400 missing_node_id)
at_parts method (part ∷ parts) rs =
    if eq_bytes part []
    then (rs, http_error 400 missing_node_id)
    else at_node method parts (node_of (atoi part) rs) rs

unfoldable pub nodes_handler : Request → Nodes → Nodes × Response
unfolding at_parts at_node node_action
nodes_handler req rs = at_parts req.method (split_slash (trim_prefix (codes "/nodes/") req.path)) rs
