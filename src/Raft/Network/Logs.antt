-- ===== src/Raft/Network/Logs.antt =====
-- The handlers that leave the log of their node as it is.
use distributed_fault_tolera.Prelude.{
  ℕ, zero, suc, Bytes, List, [], ◌∷◌, Option, none, some, ◌≡◌, refl, ap, ◌∙◌, arith, ℤ,
}
use distributed_fault_tolera.Prelude.{if_elim, leb, inc}
use distributed_fault_tolera.Raft.Log.{last_index}
use distributed_fault_tolera.Events.{heartbeat_sent, heartbeat_sent_to}
use distributed_fault_tolera.Raft.Node.{RaftNode, emit_event}
use distributed_fault_tolera.Raft.Vote.{RequestVoteArgs, RequestVoteReply, request_vote}
use distributed_fault_tolera.Raft.AppendEntries.{
  AppendEntriesArgs, AppendEntriesReply, apply_committed,
}
use distributed_fault_tolera.Raft.AppendEntries.Apply.{apply_committed-OnlyApplied}
use distributed_fault_tolera.Raft.Election.{Campaign, vote_reply, count_vote}
use distributed_fault_tolera.Raft.Heartbeat.{
  send_heartbeats, send_to_peers, commit_loop, advance_commit, update_commit_index, record_success,
  append_reply,
}
use distributed_fault_tolera.Raft.Lifecycle.{stop}

module _ {S : Type 0} where
  pub log-request_vote :
      (args : RequestVoteArgs) (r : RaftNode S) → (request_vote args r).0.log ≡ r.log
  unfolding request_vote
  log-request_vote args r = ground arith

  pub log-vote_reply :
      (peer : ℤ) (reply : Option RequestVoteReply) (c : Campaign) (r : RaftNode S)
      → (vote_reply peer reply c r).1.log ≡ r.log
  unfolding vote_reply count_vote
  log-vote_reply peer none c r = refl
  log-vote_reply peer (some x) c r = ground arith

  log-commit_loop : (n i : ℕ) (r : RaftNode S) → (commit_loop n i r).log ≡ r.log
  unfolding commit_loop advance_commit
  log-commit_loop zero i r = refl
  log-commit_loop (suc n) i r =
      if_elim (λ (r' : RaftNode S). r'.log ≡ r.log) (leb i (last_index r.log))
        (λ inside. log-commit_loop n (inc i) (advance_commit i r) ∙ ground arith) (λ outside. refl)

  log-success :
      (peer : ℤ) (args : AppendEntriesArgs) (r : RaftNode S)
      → (apply_committed (update_commit_index (record_success peer args r))).log ≡ r.log
  unfolding update_commit_index record_success
  log-success peer args r =
      ap (λ x. x.log) (apply_committed-OnlyApplied _).same ∙ log-commit_loop _ _ _ ∙ ground arith

  pub log-append_reply :
      (peer : ℤ) (args : AppendEntriesArgs) (reply : Option AppendEntriesReply) (r : RaftNode S)
      → (append_reply peer args reply r).log ≡ r.log
  unfolding append_reply
  log-append_reply peer args none r = refl
  log-append_reply peer args (some reply) r = ground (arith, log-success peer args r)

  pub log-stop : (r : RaftNode S) → (stop r).log ≡ r.log
  unfolding stop
  log-stop r = ground arith

  log-send_to_peers :
      (peers : List (ℤ × Bytes)) (r : RaftNode S) → (send_to_peers peers r).0.log ≡ r.log
  unfolding send_to_peers
  log-send_to_peers [] r = refl
  log-send_to_peers ((i, address) ∷ peers) r = ground (
    arith,
    log-send_to_peers peers r,
    log-send_to_peers peers (emit_event heartbeat_sent (heartbeat_sent_to i) i 0 r),
  )

  pub log-send_heartbeats : (r : RaftNode S) → (send_heartbeats r).0.log ≡ r.log
  unfolding send_heartbeats
  log-send_heartbeats r = ground (arith, log-send_to_peers r.peers r)
