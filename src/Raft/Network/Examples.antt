-- ===== src/Raft/Network/Examples.antt =====
-- Node 0 of three is elected, takes a command and sends it to node 1.
use distributed_fault_tolera.Prelude.{false, ℕ, [], ◌∷◌, some, ◌≡◌, refl, pos, arith, take}
use distributed_fault_tolera.Prelude.Assoc.{lookup}
use distributed_fault_tolera.Raft.Log.{Command, LogEntry, last_index, append, get, entries_from}
use distributed_fault_tolera.Raft.Node.{new_raft_node, become_leader}
use distributed_fault_tolera.Raft.Election.{
  start_election, election_timeout, other_peers, vote_reply, count_vote,
}
use distributed_fault_tolera.Raft.Vote.{request_vote, is_candidate_log_up_to_date, last_log_term}
use distributed_fault_tolera.Raft.Lifecycle.{set_peers, start}
use distributed_fault_tolera.Raft.AppendEntries.{
  append_entries, append_entry, append_new_entries, has_previous, store_entries, follow_commit,
  apply_committed, accept_leader,
}
use distributed_fault_tolera.Raft.Heartbeat.{Heartbeat, heartbeat_args, send_heartbeats, index_of}
use distributed_fault_tolera.Raft.Run.{run_op}
use distributed_fault_tolera.Raft.Cluster.{is_asked, time_out, request, count}
use distributed_fault_tolera.Raft.Cluster.Examples.{three_peers, calm, elected}
use distributed_fault_tolera.Raft.Network.{
  writing, delivering, replicating, Network, Moves, here, next, elect, write, replicate, deliver,
  network, marshal, marshalling,
}
use distributed_fault_tolera.Raft.Network.Matching.{log_matching}
use distributed_fault_tolera.Raft.Network.Shared.{five, log_mismatch}
use distributed_fault_tolera.Prelude.{true}
use distributed_fault_tolera.Raft.Network.Overwritten.{trio, two_commands_committed}

abbrev put_k : Command
put_k = record { kind = 0; key = 107 ∷ []; value = 118 ∷ [] }

abbrev entry_k : LogEntry
entry_k = record { index = 1; term = 1; command = put_k }

abbrev begun : Network ℕ
begun = record (network three_peers calm 0) { system = elected }

abbrev written : Network ℕ
written = writing 0 put_k begun

abbrev call_1 : Heartbeat
call_1 = record {
  peer = pos 1;
  address = [];
  args = heartbeat_args (pos 1) (written.system.nodes 0);
}

abbrev copied : Network ℕ
copied = delivering 1 call_1 (marshalling 0 call_1 (replicating 0 written))

copied-Moves : Moves false 3 (network three_peers calm 0) copied
unfolding election_timeout start_election set_peers new_raft_node is_asked other_peers
    send_heartbeats vote_reply request_vote is_candidate_log_up_to_date last_index last_log_term
    count_vote run_op start append become_leader heartbeat_args index_of entries_from get
copied-Moves =
    let begun =
      next
        (next (next here (elect (time_out 0 (omega arith) (omega arith) refl) tt))
          (elect (request 0 1 1 (omega arith) refl) tt))
        (elect (count 0 1 1 (omega arith) refl) tt) in
    let replicated =
      next (next begun (write 0 put_k (omega arith) (omega arith) (omega arith))) (replicate 0) in
    next (next replicated (marshal 0 refl)) (deliver 1 0 refl refl)

copied-logs :
    let nodes = copied.system.nodes in
    (get 1 (nodes 0).log ≡ some entry_k) × (get 1 (nodes 1).log ≡ some entry_k)
unfolding election_timeout start_election set_peers new_raft_node is_asked other_peers
    send_heartbeats vote_reply request_vote is_candidate_log_up_to_date last_index last_log_term
    count_vote run_op start append become_leader heartbeat_args index_of entries_from get
    append_entries append_entry append_new_entries has_previous store_entries follow_commit
    apply_committed accept_leader lookup
copied-logs = (refl, refl)

log_matching_example :
    take 1 (copied.system.nodes 0).log.entries ≡ take 1 (copied.system.nodes 1).log.entries
log_matching_example =
    log_matching 3 three_peers calm 0 0 1 0 entry_k entry_k refl copied-Moves copied-logs.0
      copied-logs.1 refl

abbrev delete_k : Command
delete_k = record { kind = 1; key = 107 ∷ []; value = [] }

two_commands_committed_example :
    (s : Network ℕ) × Moves false 3 (network trio calm 0) s
    × ((s.system.nodes 0).commit_index ≡ 1)
    × ((s.system.nodes 0).last_applied ≡ 1)
    × (get 1 (s.system.nodes 0).log ≡ some (record { index = 1; term = 1; command = put_k }))
    × ((s.system.nodes 1).commit_index ≡ 1)
    × ((s.system.nodes 1).last_applied ≡ 1)
    × (get 1 (s.system.nodes 1).log ≡ some (record { index = 1; term = 2; command = delete_k }))
two_commands_committed_example = two_commands_committed put_k delete_k calm 0

log_mismatch_example :
    (s : Network ℕ) × Moves true 5 (network five calm 0) s
    × (get 2 (s.system.nodes 1).log ≡ some (record { index = 2; term = 2; command = delete_k }))
    × (get 2 (s.system.nodes 2).log ≡ some (record { index = 2; term = 2; command = delete_k }))
    × (get 1 (s.system.nodes 1).log ≡ some (record { index = 1; term = 2; command = put_k }))
    × (get 1 (s.system.nodes 2).log ≡ some (record { index = 1; term = 1; command = put_k }))
log_mismatch_example = log_mismatch put_k delete_k put_k delete_k calm 0
