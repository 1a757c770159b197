-- ===== src/Raft/Network/Overwritten.antt =====
-- updateCommitIndex of kv-store/internal/raft/node.go counts replicas of entries of any term. So a
-- leader can commit an entry of an earlier term that a later leader still overwrites.
use distributed_fault_tolera.Prelude.{
  Bool, false, ◌+◌, ◌<◌, ◌^◌, ℕ, Bytes, ℤ, List, [], ◌∷◌, Option, none, some, ◌≡◌, refl, pos, arith,
  get_elem?,
}
use distributed_fault_tolera.Prelude.Assoc.{lookup, insert}
use distributed_fault_tolera.Raft.Log.{Command, last_index, append, get, entries_from}
use distributed_fault_tolera.Raft.Node.{Env, new_raft_node}
use distributed_fault_tolera.Raft.Election.{
  start_election, election_timeout, other_peers, vote_reply, count_vote,
}
use distributed_fault_tolera.Raft.Vote.{
  RequestVoteReply, request_vote, is_candidate_log_up_to_date, last_log_term,
}
use distributed_fault_tolera.Raft.Lifecycle.{set_peers, start}
use distributed_fault_tolera.Raft.AppendEntries.{
  append_entries, append_entry, append_new_entries, has_previous, store_entries, follow_commit,
  apply_committed, accept_leader,
}
use distributed_fault_tolera.Raft.Heartbeat.{
  Heartbeat, heartbeat_args, send_heartbeats, index_of, append_reply, record_success,
  update_commit_index, commit_loop, advance_commit, is_replicated, count_matches,
}
use distributed_fault_tolera.Raft.Run.{run_op}
use distributed_fault_tolera.Raft.Cluster.{
  Call, asked, is_asked, answered, campaigning, requesting, counting, reply_of, time_out, request,
  count,
}
use distributed_fault_tolera.Raft.Network.{
  Network, Moves, here, next, elect, write, replicate, deliver, reply, network, writing, delivering,
  replicating, replying, marshal, marshalling,
}

abbrev pub trio : List (ℤ × Bytes)
trio = (pos 0, []) ∷ (pos 1, []) ∷ (pos 2, []) ∷ []

abbrev pub got : Call → Option RequestVoteReply
got (answered r) = r
got _ = none

module _ {S : Type 0} where
  -- The election timer of node `i` fires.
  abbrev pub standing : ℕ → Network S → Network S
  standing i s =
      let out = start_election (s.system.nodes i) in
      record s { system = campaigning i out.0 out.1 out.2 s.system }

  -- Node `j` answers the campaign of node `i` in term `t`.
  abbrev pub asking : ℕ → ℕ → ℕ → Network S → Network S
  asking i t j s = record s {
    system = requesting i t j (answered (some (reply_of i t j s.system))) s.system;
  }

  -- Node `i` counts the answer.
  abbrev pub tallying : ℕ → ℕ → ℕ → Network S → Network S
  tallying i t j s = record s { system = counting i t j (got (s.system.calls i t j)) s.system }

  abbrev pub call_of : ℕ → ℕ → Network S → Heartbeat
  call_of i j s = record {
    peer = pos j;
    address = [];
    args = heartbeat_args (pos j) (s.system.nodes i);
  }

  -- Node `i` starts its calls, of which the one at place `q` is marshalled.
  abbrev pub sending : ℕ → ℕ → ℕ → Network S → Network S
  sending i j q s = marshalling q (call_of i j s) (replicating i s)

  -- Node `i` starts its calls, the one at place `q` is marshalled, node `j` handles it, and node `i`
  -- handles the reply.
  abbrev pub exchanging : ℕ → ℕ → ℕ → Network S → Network S
  exchanging i j q s =
      let h = call_of i j s in
      replying i h (append_entries h.args (s.system.nodes j)).1 (delivering j h (sending i j q s))

module _ {S : Type 0} {shared : Bool} {n : ℕ} {start : Network S} {s : Network S} where
  pub election-Moves :
      (i t j : ℕ)
      → Moves shared n start s
      → i < n
      → j < n
      → (s.system.nodes i).current_term + 1 < 2 ^ 64
      → election_timeout (s.system.nodes i) ≡ some (start_election (s.system.nodes i))
      → (standing i s).system.calls i t j ≡ asked
      → (asking i t j (standing i s)).system.calls i t j
        ≡ answered (got ((asking i t j (standing i s)).system.calls i t j))
      → Moves shared n start (tallying i t j (asking i t j (standing i s)))
  election-Moves i t j moves below voter small fires waits replied =
      next
        (next (next moves (elect (time_out i below small fires) tt))
          (elect (request i t j voter waits) tt))
        (elect (count i t j voter replied) tt)

  pub exchange-Moves :
      (i j q p m : ℕ)
      → Moves shared n start s
      → get_elem? (replicating i s).started q ≡ some (call_of i j s)
      → get_elem? (sending i j q s).sent p ≡ some (call_of i j s)
      → get_elem? (delivering j (call_of i j s) (sending i j q s)).answers m
        ≡ some (call_of i j s, (append_entries (call_of i j s).args (s.system.nodes j)).1)
      → (s.system.nodes i).id ≡ pos i
      → Moves shared n start (exchanging i j q s)
  unfolding heartbeat_args
  exchange-Moves i j q p m moves begun called replied mine =
      next (next (next (next moves (replicate i)) (marshal q begun)) (deliver j p called refl))
        (reply i m replied mine)

module _ {S : Type 0} (a b : Command) (env : Env) (m : S) where
  -- Node 0 is elected in term 1 by node 2 and takes the command `a`.
  abbrev first_led : Network S
  first_led = writing 0 a (tallying 0 1 2 (asking 0 1 2 (standing 0 (network trio env m))))

  -- Node 1 is elected in term 2 by node 2 and takes the command `b`.
  abbrev second_led : Network S
  second_led = writing 1 b (tallying 1 2 2 (asking 1 2 2 (standing 1 (standing 1 first_led))))

  -- Node 0 hears of term 2 and is elected in term 3 by node 2.
  abbrev first_again : Network S
  first_again = tallying 0 3 2 (asking 0 3 2 (standing 0 (asking 1 2 0 second_led)))

  -- Node 2 refuses the first call and takes the second, and node 0 commits `a`.
  abbrev first_commits : Network S
  first_commits = exchanging 0 2 2 (exchanging 0 2 1 first_again)

  -- Node 1 hears of term 3 and is elected in term 4 by node 2.
  abbrev second_again : Network S
  second_again = tallying 1 4 2 (asking 1 4 2 (standing 1 (asking 0 3 1 first_commits)))

  abbrev second_commits : Network S
  second_commits = exchanging 1 2 4 (exchanging 1 2 3 second_again)

  first_commits-Moves : Moves false 3 (network trio env m) first_commits
  unfolding election_timeout start_election set_peers new_raft_node is_asked other_peers
      send_heartbeats vote_reply request_vote is_candidate_log_up_to_date last_index last_log_term
      count_vote run_op start append heartbeat_args index_of entries_from get append_entries
      append_entry append_new_entries has_previous store_entries follow_commit apply_committed
      accept_leader lookup insert append_reply record_success update_commit_index commit_loop
      advance_commit is_replicated count_matches
  first_commits-Moves =
      let led : Moves false 3 (network trio env m) first_led =
        next (election-Moves 0 1 2 here (omega arith) (omega arith) (omega arith) refl refl refl)
          (write 0 a (omega arith) (omega arith) (omega arith)) in
      let stood : Moves false 3 (network trio env m) (standing 1 first_led) =
        next led (elect (time_out 1 (omega arith) (omega arith) refl) tt) in
      let lost : Moves false 3 (network trio env m) second_led =
        next (election-Moves 1 2 2 stood (omega arith) (omega arith) (omega arith) refl refl refl)
          (write 1 b (omega arith) (omega arith) (omega arith)) in
      let heard : Moves false 3 (network trio env m) (asking 1 2 0 second_led) =
        next lost (elect (request 1 2 0 (omega arith) refl) tt) in
      exchange-Moves 0 2 2 1 1
        (exchange-Moves 0 2 1 0 0
          (election-Moves 0 3 2 heard (omega arith) (omega arith) (omega arith) refl refl refl) refl
          refl refl refl)
        refl refl refl refl

  second_commits-Moves : Moves false 3 (network trio env m) second_commits
  unfolding election_timeout start_election set_peers new_raft_node is_asked other_peers
      send_heartbeats vote_reply request_vote is_candidate_log_up_to_date last_index last_log_term
      count_vote run_op start append heartbeat_args index_of entries_from get append_entries
      append_entry append_new_entries has_previous store_entries follow_commit apply_committed
      accept_leader lookup insert append_reply record_success update_commit_index commit_loop
      advance_commit is_replicated count_matches
  second_commits-Moves =
      let heard : Moves false 3 (network trio env m) (asking 0 3 1 first_commits) =
        next first_commits-Moves (elect (request 0 3 1 (omega arith) refl) tt) in
      exchange-Moves 1 2 4 3 3
        (exchange-Moves 1 2 3 2 2
          (election-Moves 1 4 2 heard (omega arith) (omega arith) (omega arith) refl refl refl) refl
          refl refl refl)
        refl refl refl refl

  -- Whatever the two commands, a cluster of three nodes reaches, without a restart and without a call
  -- that is overwritten, a state in which two nodes have both committed and applied their entry at
  -- index 1, the one with the one command, the other with the other.
  pub two_commands_committed :
      (s : Network S) × Moves false 3 (network trio env m) s
      × ((s.system.nodes 0).commit_index ≡ 1)
      × ((s.system.nodes 0).last_applied ≡ 1)
      × (get 1 (s.system.nodes 0).log ≡ some (record { index = 1; term = 1; command = a }))
      × ((s.system.nodes 1).commit_index ≡ 1)
      × ((s.system.nodes 1).last_applied ≡ 1)
      × (get 1 (s.system.nodes 1).log ≡ some (record { index = 1; term = 2; command = b }))
  unfolding election_timeout start_election set_peers new_raft_node is_asked other_peers
      send_heartbeats vote_reply request_vote is_candidate_log_up_to_date last_index last_log_term
      count_vote run_op start append heartbeat_args index_of entries_from get append_entries
      append_entry append_new_entries has_previous store_entries follow_commit apply_committed
      accept_leader lookup insert append_reply record_success update_commit_index commit_loop
      advance_commit is_replicated count_matches
  two_commands_committed =
      (second_commits, second_commits-Moves, refl, refl, refl, refl, refl, refl)
