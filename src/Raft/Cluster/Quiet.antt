-- ===== src/Raft/Cluster/Quiet.antt =====
-- The steps of a node that neither start nor win an election.
use distributed_fault_tolera.Prelude.{◌≡◌, ◌∙◌, refl, sym, arith, ℤ, Option, none, some}
use distributed_fault_tolera.Raft.Node.{State, RaftNode, follower, candidate, leader}
use distributed_fault_tolera.Raft.Vote.{RequestVoteArgs, request_vote}
use distributed_fault_tolera.Raft.AppendEntries.{
  AppendEntriesArgs, AppendEntriesReply, append_entries, accept_leader,
}
use distributed_fault_tolera.Raft.AppendEntries.Handler.{Outcome, stale, mismatch, stored, outcome}
use distributed_fault_tolera.Raft.Heartbeat.{append_reply}
use distributed_fault_tolera.Raft.Run.Same.{
  SameFace, SameFace-refl, store_entries-SameFace, success-SameFace, send_heartbeats-SameFace,
  start-SameFace, stop-SameFace,
}
use distributed_fault_tolera.Raft.Run.OneVote.{
  KeepsVote, SameFace-KeepsVote, request_vote-KeepsVote, append_entries-KeepsVote,
  append_reply-KeepsVote,
}
use distributed_fault_tolera.Raft.Run.{
  NodeOp, get_vote_request, get_entries, time_out, late_time_out, get_vote_reply, get_append_reply,
  heartbeat, client_start, shut_down, reboot, run_op,
}
use distributed_fault_tolera.Raft.Cluster.{IsOther}

-- A node that is in this state afterwards was so before, in the same term.
abbrev pub Stays : {S : Type 0} → State → RaftNode S → RaftNode S → Type 0
Stays state r r' = r'.state ≡ state → (r.state ≡ state) × (r'.current_term ≡ r.current_term)

module _ {S : Type 0} where
  pub record Quiet (r r' : RaftNode S) : Type 0 where
    pub id : r'.id ≡ r.id
    pub peers : r'.peers ≡ r.peers
    pub keeps : KeepsVote r r'
    pub stands : Stays candidate r r'
    pub leads : Stays leader r r'

  pub SameFace-Quiet : {r r' : RaftNode S} → SameFace r r' → Quiet r r'
  SameFace-Quiet same = record {
    id = same.id;
    peers = same.peers;
    keeps = SameFace-KeepsVote same;
    stands = λ e. (sym same.state ∙ e, same.term);
    leads = λ e. (sym same.state ∙ e, same.term);
  }

  pub request_vote-Quiet :
      (args : RequestVoteArgs) (r : RaftNode S) → Quiet r (request_vote args r).0
  unfolding request_vote
  request_vote-Quiet args r = record {
    id = ground arith;
    peers = ground arith;
    keeps = request_vote-KeepsVote args r;
    stands = λ e. ground arith;
    leads = λ e. ground arith;
  }

  append_reply-Quiet :
      (peer : ℤ) (args : AppendEntriesArgs) (reply : Option AppendEntriesReply) (r : RaftNode S)
      → Quiet r (append_reply peer args reply r)
  unfolding append_reply
  append_reply-Quiet peer args none r =
      SameFace-Quiet (record { id = refl; peers = refl; state = refl; term = refl; vote = refl })
  append_reply-Quiet peer args (some reply) r =
      let same = success-SameFace peer args r in
      record {
        id = ground (arith, same.id);
        peers = ground (arith, same.peers);
        keeps = append_reply-KeepsVote peer args (some reply) r;
        stands = λ e. ground (arith, same.state, same.term);
        leads = λ e. ground (arith, same.state, same.term);
      }

  accept_leader-follower :
      (args : AppendEntriesArgs) (r : RaftNode S)
      → ((accept_leader args r).id ≡ r.id)
        × ((accept_leader args r).peers ≡ r.peers)
        × ((accept_leader args r).state ≡ follower)
  unfolding accept_leader
  accept_leader-follower args r = ground arith

  follower-Quiet :
      {r r' : RaftNode S}
      → (r'.id ≡ r.id) × (r'.peers ≡ r.peers) × (r'.state ≡ follower)
      → KeepsVote r r'
      → Quiet r r'
  follower-Quiet (id, peers, down) keeps = record {
    id = id;
    peers = peers;
    keeps = keeps;
    stands = λ e. ground (arith, down, e);
    leads = λ e. ground (arith, down, e);
  }

  append_entries-Quiet :
      (args : AppendEntriesArgs) (r : RaftNode S) → Quiet r (append_entries args r).0
  append_entries-Quiet args r = go (outcome args r) (append_entries-KeepsVote args r)
    where
      go :
          {out : RaftNode S × AppendEntriesReply}
          → Outcome args r out
          → KeepsVote r out.0
          → Quiet r out.0
      go (stale old) keeps = SameFace-Quiet (SameFace-refl r)
      go (mismatch new missing) keeps = follower-Quiet (accept_leader-follower args r) keeps
      go (stored new found) keeps =
          let same = store_entries-SameFace args (accept_leader args r) in
          let (id, peers, down) = accept_leader-follower args r in
          follower-Quiet (same.id ∙ id, same.peers ∙ peers, same.state ∙ down) keeps

  pub Quiet-refl : (r : RaftNode S) → Quiet r r
  Quiet-refl r = SameFace-Quiet (SameFace-refl r)

  -- The steps of `other` are quiet.
  pub run_op-Quiet : (op : NodeOp) (r : RaftNode S) → IsOther op → Quiet r (run_op op r)
  unfolding run_op
  run_op-Quiet (get_entries args) r k = append_entries-Quiet args r
  run_op-Quiet (get_append_reply peer args reply) r k = append_reply-Quiet peer args reply r
  run_op-Quiet heartbeat r k = SameFace-Quiet (send_heartbeats-SameFace r)
  run_op-Quiet (client_start command) r k = SameFace-Quiet (start-SameFace command r)
  run_op-Quiet shut_down r k = SameFace-Quiet (stop-SameFace r)
  run_op-Quiet (get_vote_request args) r k = absurd k
  run_op-Quiet time_out r k = absurd k
  run_op-Quiet late_time_out r k = absurd k
  run_op-Quiet (get_vote_reply peer reply c) r k = absurd k
  run_op-Quiet reboot r k = absurd k
