-- ===== src/Raft/Run/Same.antt =====
-- What the parts of the handlers that write to the log, the indices or the events leave alone: who
-- the node is, its peers, its state, its term and its vote.
use distributed_fault_tolera.Prelude.{
  ℕ, zero, suc, List, [], ◌∷◌, Bytes, ◌≡◌, refl, ap, ◌∙◌, arith, ℤ,
}
use distributed_fault_tolera.Prelude.{if_elim, leb, inc}
use distributed_fault_tolera.Raft.Log.{last_index}
use distributed_fault_tolera.Events.{heartbeat_sent, heartbeat_sent_to}
use distributed_fault_tolera.Raft.Log.{Command}
use distributed_fault_tolera.Raft.Node.{RaftNode, emit_event}
use distributed_fault_tolera.Raft.AppendEntries.{
  AppendEntriesArgs, apply_committed, follow_commit, store_entries,
}
use distributed_fault_tolera.Raft.AppendEntries.Apply.{apply_committed-OnlyApplied}
use distributed_fault_tolera.Raft.Heartbeat.{
  send_heartbeats, send_to_peers, commit_loop, advance_commit, update_commit_index, record_success,
}
use distributed_fault_tolera.Raft.Lifecycle.{start, stop}

module _ {S : Type 0} where
  pub record SameFace (r r' : RaftNode S) : Type 0 where
    pub id : r'.id ≡ r.id
    pub peers : r'.peers ≡ r.peers
    pub state : r'.state ≡ r.state
    pub term : r'.current_term ≡ r.current_term
    pub vote : r'.voted_for ≡ r.voted_for

  pub SameFace-refl : (r : RaftNode S) → SameFace r r
  SameFace-refl r = record { id = refl; peers = refl; state = refl; term = refl; vote = refl }

  SameFace-trans : {r r' r'' : RaftNode S} → SameFace r r' → SameFace r' r'' → SameFace r r''
  SameFace-trans a b = record {
    id = b.id ∙ a.id;
    peers = b.peers ∙ a.peers;
    state = b.state ∙ a.state;
    term = b.term ∙ a.term;
    vote = b.vote ∙ a.vote;
  }

  apply_committed-SameFace : (r : RaftNode S) → SameFace r (apply_committed r)
  apply_committed-SameFace r =
      let only = (apply_committed-OnlyApplied r).same in
      record {
        id = ap (λ x. x.id) only;
        peers = ap (λ x. x.peers) only;
        state = ap (λ x. x.state) only;
        term = ap (λ x. x.current_term) only;
        vote = ap (λ x. x.voted_for) only;
      }

  follow_commit-SameFace : (c : ℤ) (r : RaftNode S) → SameFace r (follow_commit c r)
  unfolding follow_commit
  follow_commit-SameFace c r = ground arith

  pub store_entries-SameFace :
      (args : AppendEntriesArgs) (r : RaftNode S) → SameFace r (store_entries args r)
  unfolding store_entries
  store_entries-SameFace args r =
      SameFace-trans (record { id = refl; peers = refl; state = refl; term = refl; vote = refl })
        (SameFace-trans (follow_commit-SameFace args.leader_commit _) (apply_committed-SameFace _))

  advance_commit-SameFace : (i : ℕ) (r : RaftNode S) → SameFace r (advance_commit i r)
  unfolding advance_commit
  advance_commit-SameFace i r = ground arith

  commit_loop-SameFace : (n i : ℕ) (r : RaftNode S) → SameFace r (commit_loop n i r)
  unfolding commit_loop
  commit_loop-SameFace zero i r = SameFace-refl r
  commit_loop-SameFace (suc n) i r =
      if_elim (SameFace r) (leb i (last_index r.log))
        (λ inside. SameFace-trans (advance_commit-SameFace i r) (commit_loop-SameFace n (inc i) _))
        (λ outside. SameFace-refl r)

  record_success-SameFace :
      (peer : ℤ) (args : AppendEntriesArgs) (r : RaftNode S)
      → SameFace r (record_success peer args r)
  unfolding record_success
  record_success-SameFace peer args r = ground arith

  -- What the leader does with a reply that reports success.
  pub success-SameFace :
      (peer : ℤ) (args : AppendEntriesArgs) (r : RaftNode S)
      → SameFace r (apply_committed (update_commit_index (record_success peer args r)))
  unfolding update_commit_index
  success-SameFace peer args r =
      SameFace-trans (record_success-SameFace peer args r)
        (SameFace-trans (commit_loop-SameFace _ _ _) (apply_committed-SameFace _))

  send_to_peers-SameFace :
      (peers : List (ℤ × Bytes)) (r : RaftNode S) → SameFace r (send_to_peers peers r).0
  unfolding send_to_peers
  send_to_peers-SameFace [] r = SameFace-refl r
  send_to_peers-SameFace ((i, address) ∷ peers) r = ground (
    arith,
    send_to_peers-SameFace peers r,
    send_to_peers-SameFace peers (emit_event heartbeat_sent (heartbeat_sent_to i) i 0 r),
  )

  pub send_heartbeats-SameFace : (r : RaftNode S) → SameFace r (send_heartbeats r).0
  unfolding send_heartbeats
  send_heartbeats-SameFace r = ground (arith, send_to_peers-SameFace r.peers r)

  pub start-SameFace : (command : Command) (r : RaftNode S) → SameFace r (start command r).0
  unfolding start
  start-SameFace command r = ground arith

  pub stop-SameFace : (r : RaftNode S) → SameFace r (stop r)
  unfolding stop
  stop-SameFace r = ground arith
