-- ===== src/HttpApi/Examples.antt =====
-- The theorems about the HTTP API at a cluster of a follower and a leader.
use distributed_fault_tolera.Prelude.{
  eq_bytes, ℕ, Bytes, [], ◌∷◌, true, Option, none, some, ◌≡◌, ◌≢◌, ◌⊎◌, ◌↔◌, refl, arith, pos,
}
use distributed_fault_tolera.Events.{Event, node_stopped, node_was_stopped}
use distributed_fault_tolera.Raft.Node.{RaftNode, leader, new_raft_node}
use distributed_fault_tolera.Raft.Election.{eq_state}
use distributed_fault_tolera.Raft.Lifecycle.{status, start, set_apply_func}
use distributed_fault_tolera.Raft.KvNode.{Machine, kv_set, answer, new_kv_node}
use distributed_fault_tolera.Raft.KvNode.Examples.{kv_node}
use distributed_fault_tolera.HttpApi.Text.{codes, trim_prefix, after_prefix, show_int}
use distributed_fault_tolera.HttpApi.{
  entry_node, find_leader_kv_node, find_any_alive_kv_node, find_node, handle_put, Request, empty,
  Response, node, Nodes, kv_handler,
}
use distributed_fault_tolera.HttpApi.Control.{kill_node, restart_node, nodes_handler}
use distributed_fault_tolera.HttpApi.Control.Paths.{path_of, nodes_handler-path_of}
use distributed_fault_tolera.HttpApi.Routes.{routes, new_handler}
use distributed_fault_tolera.HttpApi.Routes.Kept.{new_handler-Keeps}
use distributed_fault_tolera.HttpApi.Stream.{matches_filter}
use distributed_fault_tolera.HttpApi.Stream.Filter.{InCategory, matches_filter_iff}
use distributed_fault_tolera.HttpApi.Writes.{Outcome, kv_handler-Outcome}

abbrev leader_node : RaftNode Machine
leader_node = record kv_node { state = leader; id = pos 1 }

abbrev two_nodes : Nodes
two_nodes = kv_node ∷ leader_node ∷ []

abbrev put_request : Request
put_request = record { method = codes "PUT"; path = codes "/kv/a"; body = codes "1" }

-- In place of the JSON decoder: the body is the value, and must not be empty.
abbrev plain_body : Bytes → Option Bytes
plain_body [] = none
plain_body (c ∷ s) = some (c ∷ s)

abbrev nothing_there : Request → Response
nothing_there req = record { code = 404; body = empty }

kv_handler-Outcome_example :
    Outcome
      (trim_prefix (codes "/kv/") put_request.path)
      (codes "1")
      two_nodes
      (kv_handler plain_body put_request two_nodes)
unfolding trim_prefix after_prefix
kv_handler-Outcome_example =
    kv_handler-Outcome plain_body put_request two_nodes (codes "1") refl (ground arith) refl

redirects : let temporary_redirect : ℕ = 307 in temporary_redirect ≢ 200
redirects e = ground (arith, e)

new_handler-Keeps_example :
    (new_handler plain_body (λ _. none) nothing_there nothing_there put_request (kv_node ∷ [])).0
    ≡ kv_node ∷ []
unfolding new_handler routes kv_handler entry_node find_leader_kv_node find_any_alive_kv_node
    find_node handle_put kv_set answer start eq_state eq_bytes new_kv_node set_apply_func
    new_raft_node after_prefix trim_prefix
new_handler-Keeps_example =
    new_handler-Keeps plain_body (λ _. none) nothing_there nothing_there put_request (kv_node ∷ [])
      redirects

nodes_handler-path_of_example :
    (nodes_handler (record { method = codes "GET"; path = path_of 1 []; body = [] }) two_nodes
      ≡ (two_nodes, record { code = 200; body = node (status leader_node) }))
    × (nodes_handler
          (record { method = codes "POST"; path = path_of 1 (codes "/kill"); body = [] })
          two_nodes
        ≡ kill_node 1 leader_node two_nodes)
    × (nodes_handler
          (record { method = codes "POST"; path = path_of 1 (codes "/restart"); body = [] })
          two_nodes
        ≡ restart_node 1 leader_node two_nodes)
nodes_handler-path_of_example = nodes_handler-path_of 1 leader_node two_nodes [] (omega arith) refl

abbrev stop_event : Event
stop_event = record {
  timestamp = 1;
  node_id = pos 2;
  kind = node_stopped;
  term = 1;
  message = node_was_stopped;
  peer_id = pos 0;
  log_index = 0;
}

matches_filter_iff_example :
    (matches_filter stop_event (show_int (pos 2)) (codes "elections") ≡ true) ↔ (
      ((stop_event.node_id ≡ pos 2) ⊎ (stop_event.peer_id ≡ pos 2))
      × InCategory stop_event.kind (codes "elections"))
matches_filter_iff_example =
    matches_filter_iff stop_event (pos 2) (codes "elections") (omega arith) (omega arith)
      (omega arith)
