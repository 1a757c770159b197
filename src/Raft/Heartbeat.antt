-- ===== src/Raft/Heartbeat.antt =====
-- kv-store/internal/raft/append_entries.go and node.go on the leader: sendHeartbeats, the goroutine
-- that waits for one peer's reply, and updateCommitIndex.
pub mod Commit
pub mod Replication
use distributed_fault_tolera.Prelude.Assoc.{lookup, insert}
use distributed_fault_tolera.Prelude.{
  ℕ, zero, suc, ◌+◌, ◌-◌, ◌/◌, ◌%◌, ◌^◌, Bytes, List, [], ◌∷◌, Bool, true, false, ◌||◌, not, Option,
  none, some, ℤ, minus_one, eq_ℤ, to_int, to_uint, inc, ltb, leb, ◌==◌, if◌then◌else◌, length,
}
use distributed_fault_tolera.Events.{
  heartbeat_sent, heartbeat_sent_to, log_replicated, log_replicated_to, commit_advanced,
  commit_index_advanced,
}
use distributed_fault_tolera.Raft.Log.{last_index, get, entries_from, entry_or_zero}
use distributed_fault_tolera.Raft.Node.{RaftNode, follower, leader, emit_event}
use distributed_fault_tolera.Raft.AppendEntries.{
  AppendEntriesArgs, AppendEntriesReply, apply_committed,
}
use distributed_fault_tolera.Raft.Election.{eq_state}

-- Go reads 0 for a key that a map lacks.
unfoldable pub index_of : ℤ → List (ℤ × ℕ) → ℕ
index_of i m = elim (lookup eq_ℤ i m) [ none ↦ 0 | some n ↦ n ]

-- A call that `sendHeartbeats` starts.
pub record Heartbeat : Type 0 where
  pub peer : ℤ
  pub address : Bytes
  pub args : AppendEntriesArgs

-- The inner loop of updateCommitIndex: the other peers that hold the entry at `index`.
unfoldable pub count_matches : ℕ → ℤ → List (ℤ × ℕ) → List (ℤ × Bytes) → ℕ
count_matches index me matches [] = 0
count_matches index me matches ((i, address) ∷ peers) =
    let rest = count_matches index me matches peers in
    if eq_ℤ i me then rest else if leb index (index_of i matches) then rest + 1 else rest

module _ {S : Type 0} where
  -- `entries` is the slice of the log's array as it is then; until the call is marshalled, writes to
  -- the array change it (Raft/Network).
  unfoldable pub heartbeat_args : ℤ → RaftNode S → AppendEntriesArgs
  heartbeat_args peer r =
      let next = index_of peer r.next_index in
      let prev = if ltb 1 next then next - 1 else 0 in
      record {
        term = r.current_term;
        leader_id = r.id;
        prev_log_index = to_int prev;
        prev_log_term = to_int (if ltb 1 next then (entry_or_zero (get prev r.log)).term else 0);
        entries = entries_from next r.log;
        leader_commit = to_int r.commit_index;
      }

  -- The loop over the peers, with an event for each call.
  unfoldable pub send_to_peers : List (ℤ × Bytes) → RaftNode S → RaftNode S × List Heartbeat
  unfolding emit_event
  send_to_peers [] r = (r, [])
  send_to_peers ((i, address) ∷ peers) r =
      let r₁ = emit_event heartbeat_sent (heartbeat_sent_to i) i 0 r in
      let this : Heartbeat = record { peer = i; address = address; args = heartbeat_args i r } in
      let skipped = send_to_peers peers r in
      let (r₂, later) = send_to_peers peers r₁ in
      if eq_ℤ i r.id then skipped else (r₂, this ∷ later)

  unfoldable pub send_heartbeats : RaftNode S → RaftNode S × List Heartbeat
  unfolding send_to_peers eq_state
  send_heartbeats r = if not (eq_state r.state leader) then (r, []) else send_to_peers r.peers r

  -- `count > len(r.peers)/2`, where the leader itself counts for one.
  unfoldable pub is_replicated : ℕ → RaftNode S → Bool
  is_replicated index r =
      ltb (length r.peers / 2) (1 + count_matches index r.id r.match_index r.peers)

  unfoldable pub advance_commit : ℕ → RaftNode S → RaftNode S
  unfolding emit_event
  advance_commit index r =
      if is_replicated index r
      then emit_event commit_advanced commit_index_advanced minus_one index
          (record r { commit_index = index })
      else r

  -- The loop from `index` on, with at most the given number of tests of its condition.
  unfoldable pub commit_loop : ℕ → ℕ → RaftNode S → RaftNode S
  commit_loop zero index r = r
  commit_loop (suc n) index r =
      let later = commit_loop n (inc index) (advance_commit index r) in
      if leb index (last_index r.log) then later else r

  unfoldable pub update_commit_index : RaftNode S → RaftNode S
  update_commit_index r = commit_loop (last_index r.log - r.commit_index + 1) (inc r.commit_index) r

  -- The reply of a peer that has stored the entries of the call.
  unfoldable pub record_success : ℤ → AppendEntriesArgs → RaftNode S → RaftNode S
  unfolding emit_event
  record_success peer args r =
      let matched = (to_uint args.prev_log_index + length args.entries) % 2 ^ 64 in
      let r₁ : RaftNode S = record r {
        match_index = insert eq_ℤ peer matched r.match_index;
        next_index = insert eq_ℤ peer (inc matched) r.next_index;
      } in
      if ltb 0 (length args.entries)
      then emit_event log_replicated (log_replicated_to peer) peer matched r₁
      else r₁

  unfoldable pub append_reply :
      ℤ → AppendEntriesArgs → Option AppendEntriesReply → RaftNode S → RaftNode S
  unfolding eq_state
  append_reply peer args none r = r
  append_reply peer args (some reply) r =
      if not (eq_state r.state leader) || not (r.current_term == args.term)
      then r
      else if ltb r.current_term reply.term
      then record r { current_term = reply.term; state = follower; voted_for = minus_one }
      else if not reply.success
      then if ltb 1 (index_of peer r.next_index)
        then record r {
          next_index = insert eq_ℤ peer (index_of peer r.next_index - 1) r.next_index;
        }
        else r
      else apply_committed (update_commit_index (record_success peer args r))
