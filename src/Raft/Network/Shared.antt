-- ===== src/Raft/Network/Shared.antt =====
-- sendHeartbeats of kv-store/internal/raft/append_entries.go gives its goroutines slices of the log's
-- own array (EntriesFrom of log.go), and they marshal them after the mutex is released. If the log
-- is truncated and appended to in between, a call of an old term carries entries of a later one. The
-- array of two entries that were appended one by one has no room for more and is not replaced when
-- both are truncated and two others are appended.
use distributed_fault_tolera.Prelude.{
  ◌<◌, true, ℕ, Bytes, ℤ, List, [], ◌∷◌, some, ◌≡◌, refl, pos, arith,
}
use distributed_fault_tolera.Prelude.Assoc.{lookup, insert}
use distributed_fault_tolera.Raft.Log.{
  Command, LogEntry, last_index, append, get, entries_from, truncate_from,
}
use distributed_fault_tolera.Raft.Node.{Env, new_raft_node}
use distributed_fault_tolera.Raft.Election.{
  start_election, election_timeout, other_peers, vote_reply, count_vote,
}
use distributed_fault_tolera.Raft.Vote.{request_vote, is_candidate_log_up_to_date, last_log_term}
use distributed_fault_tolera.Raft.Lifecycle.{set_peers, start}
use distributed_fault_tolera.Raft.AppendEntries.{
  append_entries, append_entry, append_new_entries, has_previous, store_entries, follow_commit,
  apply_committed, accept_leader,
}
use distributed_fault_tolera.Raft.Heartbeat.{
  Heartbeat, heartbeat_args, send_heartbeats, index_of, append_reply, record_success,
  update_commit_index, commit_loop, advance_commit, is_replicated, count_matches,
}
use distributed_fault_tolera.Raft.Run.{run_op}
use distributed_fault_tolera.Raft.Cluster.{is_asked, asked, answered, time_out, request, count}
use distributed_fault_tolera.Raft.Network.{
  Network, Moves, here, next, elect, write, replicate, overwrite, marshal, deliver, network,
  writing, delivering, replicating, overwriting, marshalling, with_entry,
}
use distributed_fault_tolera.Raft.Network.Overwritten.{
  got, standing, asking, tallying, call_of, sending, exchanging, election-Moves, exchange-Moves,
}

abbrev pub five : List (ℤ × Bytes)
five = (pos 0, []) ∷ (pos 1, []) ∷ (pos 2, []) ∷ (pos 3, []) ∷ (pos 4, []) ∷ []

module _ {S : Type 0} {n : ℕ} {start : Network S} {s : Network S} where
  vote-Moves :
      (i t j : ℕ)
      → Moves true n start s
      → j < n
      → s.system.calls i t j ≡ asked
      → (asking i t j s).system.calls i t j ≡ answered (got ((asking i t j s).system.calls i t j))
      → Moves true n start (tallying i t j (asking i t j s))
  vote-Moves i t j moves voter waits replied =
      next (next moves (elect (request i t j voter waits) tt))
        (elect (count i t j voter replied) tt)

module _ {S : Type 0} (a b c d : Command) (env : Env) (m : S) where
  -- Node 0 is elected in term 1 by nodes 2 and 3.
  abbrev first_led : Network S
  first_led =
      tallying 0 1 3
        (asking 0 1 3 (tallying 0 1 2 (asking 0 1 2 (standing 0 (network five env m)))))

  -- It takes the command `a`, which node 2 stores, and then the command `b`.
  abbrev second_taken : Network S
  second_taken = writing 0 b (exchanging 0 2 1 (writing 0 a first_led))

  -- It starts the call to node 2 with `b`, which is not marshalled yet.
  abbrev pending : Heartbeat
  pending = call_of 0 2 second_taken

  abbrev call_started : Network S
  call_started = replicating 0 second_taken

  -- Node 1 is elected in term 2 by nodes 3 and 4, and takes the commands `c` and `d`.
  abbrev other_led : Network S
  other_led =
      tallying 1 2 4
        (asking 1 2 4 (tallying 1 2 3 (asking 1 2 3 (standing 1 (standing 1 call_started)))))

  abbrev both_taken : Network S
  both_taken = writing 1 d (writing 1 c other_led)

  abbrev last_entry : LogEntry
  last_entry = record { index = 2; term = 2; command = d }

  -- Node 0 stores them, in the array that it shares with the pending call.
  abbrev replaced : Network S
  replaced =
      overwriting 4 0 pending last_entry
        (delivering 0 (call_of 1 0 both_taken) (sending 1 0 7 both_taken))

  -- The pending call is marshalled, and node 2 handles it.
  abbrev mismatched : Network S
  mismatched = let h = with_entry 0 last_entry pending in delivering 2 h (marshalling 4 h replaced)

  call_started-Moves : Moves true 5 (network five env m) call_started
  unfolding election_timeout start_election set_peers new_raft_node is_asked other_peers
      send_heartbeats vote_reply request_vote is_candidate_log_up_to_date last_index last_log_term
      count_vote run_op start append heartbeat_args index_of entries_from get append_entries
      append_entry append_new_entries has_previous store_entries follow_commit apply_committed
      accept_leader lookup insert append_reply record_success update_commit_index commit_loop
      advance_commit is_replicated count_matches
  call_started-Moves =
      let one : Moves true 5 (network five env m)
          (tallying 0 1 2 (asking 0 1 2 (standing 0 (network five env m)))) =
        election-Moves 0 1 2 here (omega arith) (omega arith) (omega arith) refl refl refl in
      let led : Moves true 5 (network five env m) first_led =
        vote-Moves 0 1 3 one (omega arith) refl refl in
      let wrote : Moves true 5 (network five env m) (writing 0 a first_led) =
        next led (write 0 a (omega arith) (omega arith) (omega arith)) in
      let stored : Moves true 5 (network five env m) (exchanging 0 2 1 (writing 0 a first_led)) =
        exchange-Moves 0 2 1 0 0 wrote refl refl refl refl in
      next (next stored (write 0 b (omega arith) (omega arith) (omega arith))) (replicate 0)

  both_taken-Moves : Moves true 5 (network five env m) both_taken
  unfolding election_timeout start_election set_peers new_raft_node is_asked other_peers
      send_heartbeats vote_reply request_vote is_candidate_log_up_to_date last_index last_log_term
      count_vote run_op start append heartbeat_args index_of entries_from get append_entries
      append_entry append_new_entries has_previous store_entries follow_commit apply_committed
      accept_leader lookup insert append_reply record_success update_commit_index commit_loop
      advance_commit is_replicated count_matches
  both_taken-Moves =
      let stood : Moves true 5 (network five env m) (standing 1 call_started) =
        next call_started-Moves (elect (time_out 1 (omega arith) (omega arith) refl) tt) in
      let one =
        election-Moves 1 2 3 stood (omega arith) (omega arith) (omega arith) refl refl refl in
      let led : Moves true 5 (network five env m) other_led =
        vote-Moves 1 2 4 one (omega arith) refl refl in
      next (next led (write 1 c (omega arith) (omega arith) (omega arith)))
        (write 1 d (omega arith) (omega arith) (omega arith))

  -- Whatever four commands come, where a log may overwrite the entries of a call that is not yet
  -- marshalled, a cluster of five nodes reaches, without a restart, a state in which two nodes have
  -- one entry, of one term, at index 2, but entries of different terms at index 1.
  pub log_mismatch :
      (s : Network S) × Moves true 5 (network five env m) s
      × (get 2 (s.system.nodes 1).log ≡ some (record { index = 2; term = 2; command = d }))
      × (get 2 (s.system.nodes 2).log ≡ some (record { index = 2; term = 2; command = d }))
      × (get 1 (s.system.nodes 1).log ≡ some (record { index = 1; term = 2; command = c }))
      × (get 1 (s.system.nodes 2).log ≡ some (record { index = 1; term = 1; command = a }))
  unfolding election_timeout start_election set_peers new_raft_node is_asked other_peers
      send_heartbeats vote_reply request_vote is_candidate_log_up_to_date last_index last_log_term
      count_vote run_op start append heartbeat_args index_of entries_from get append_entries
      append_entry append_new_entries has_previous store_entries follow_commit apply_committed
      accept_leader lookup insert append_reply record_success update_commit_index commit_loop
      advance_commit is_replicated count_matches truncate_from
  log_mismatch =
      let handed =
        next (next (next both_taken-Moves (replicate 1)) (marshal 7 refl))
          (deliver 0 1 refl refl) in
      let over : Moves true 5 (network five env m) replaced =
        next handed (overwrite 0 4 0 refl refl refl (omega arith) refl) in
      (
        mismatched,
        next (next over (marshal 4 refl)) (deliver 2 2 refl refl),
        refl,
        refl,
        refl,
        refl,
      )
