-- ===== src/HttpApi/Routes.antt =====
-- The routes of kv-store/internal/httpapi/handler.go.
pub mod Kept
use distributed_fault_tolera.Prelude.{
  ℕ, zero, suc, Bytes, List, [], ◌∷◌, Bool, true, false, not, ◌&&◌, Option, none, some, ◌≡◌, ◌≢◌,
  ◌⊎◌, inl, inr, refl, ap, sym, ◌∙◌, arith, ℤ, pos, negsuc, eq_bytes, get_elem?, if◌then◌else◌,
  if_elim, Bool-cases, subst,
}
use distributed_fault_tolera.Raft.Node.{RaftNode}
use distributed_fault_tolera.Raft.Lifecycle.{start}
use distributed_fault_tolera.Raft.Node.{leader}
use distributed_fault_tolera.Raft.Election.{eq_state}
use distributed_fault_tolera.Raft.KvNode.Clients.{answer-accepted, answer-refused}
use distributed_fault_tolera.Raft.KvNode.{
  Machine, answer, kv_set, kv_delete, set_command, delete_command,
}
use distributed_fault_tolera.HttpApi.Text.{codes, after_prefix, trim_prefix, split_slash, atoi}
use distributed_fault_tolera.HttpApi.{
  Request, empty, Response, Nodes, is_running_leader, is_running, next_place, find_node, set_node,
  find_leader_kv_node, find_any_alive_kv_node, handle_get, put_value, put_answer, handle_put,
  delete_answer, handle_delete, kv_method, kv_at, entry_node, kv_handler,
}
use distributed_fault_tolera.HttpApi.Control.{
  cluster_handler, kill_node, restart_node, node_action, node_of, at_node, at_parts, nodes_handler,
}

abbrev pub has_prefix : Bytes → Bytes → Bool
has_prefix p s = elim (after_prefix p s) [ none ↦ false | some rest ↦ true ]

-- `redirect` is the redirection by which ServeMux answers a path that it does not take as it is,
-- `mux_answer` what it does with a path that no route of the API fits, and `stream` the answer of the
-- stream of events. The headers are left out.
module _ (decode : Bytes → Option Bytes) (redirect : Request → Option Response)
    (mux_answer stream : Request → Response) where
  -- What ServeMux does with a request, from its redirection.
  pub served : Option Response → Request → Nodes → Nodes × Response
  served (some answer) req rs = (rs, answer)
  served none req rs =
      if has_prefix (codes "/kv/") req.path
      then kv_handler decode req rs
      else if eq_bytes req.path (codes "/cluster")
      then (rs, cluster_handler req rs)
      else if has_prefix (codes "/nodes/") req.path
      then nodes_handler req rs
      else if eq_bytes req.path (codes "/events")
      then (rs, stream req)
      else (rs, mux_answer req)

  unfoldable pub routes : Request → Nodes → Nodes × Response
  unfolding served
  routes req rs = served (redirect req) req rs

  -- `CorsWrap` answers OPTIONS by itself.
  unfoldable pub new_handler : Request → Nodes → Nodes × Response
  new_handler req rs =
      if eq_bytes req.method (codes "OPTIONS")
      then (rs, record { code = 200; body = empty })
      else routes req rs
