-- ===== src/Raft/Run/OneVote.antt =====
-- A node that is not restarted gives one vote in a term, and its term never falls.
use distributed_fault_tolera.Prelude.{
  ◌+◌, ◌≤◌, ◌<◌, ◌^◌, none, some, Option, true, ◌≡◌, ◌≢◌, refl, ◌∙◌, sym, arith, ℤ, minus_one,
  eq_ℤ_iff,
}
use distributed_fault_tolera.Raft.Node.{RaftNode}
use distributed_fault_tolera.Raft.Vote.{RequestVoteArgs, RequestVoteReply, request_vote}
use distributed_fault_tolera.Raft.Vote.Rules.{request_vote-granted}
use distributed_fault_tolera.Raft.AppendEntries.{
  AppendEntriesArgs, AppendEntriesReply, append_entries, accept_leader,
}
use distributed_fault_tolera.Raft.AppendEntries.Handler.{Outcome, stale, mismatch, stored, outcome}
use distributed_fault_tolera.Raft.Election.{
  Campaign, election_timeout, vote_reply, start_election, count_vote,
}
use distributed_fault_tolera.Raft.Heartbeat.{append_reply}
use distributed_fault_tolera.Raft.Run.Same.{
  SameFace, store_entries-SameFace, success-SameFace, send_heartbeats-SameFace, start-SameFace,
  stop-SameFace,
}
use distributed_fault_tolera.Raft.Run.{
  NodeOp, get_vote_request, get_entries, time_out, late_time_out, get_vote_reply, get_append_reply,
  heartbeat, client_start, shut_down, reboot, run_op, KeepsRunning, Run, here, next,
}

module _ {S : Type 0} where
  -- The term does not fall, and within a term a vote that is given stays.
  pub record KeepsVote (r r' : RaftNode S) : Type 0 where
    pub term : r.current_term ≤ r'.current_term
    pub vote :
        r'.current_term ≡ r.current_term → r.voted_for ≢ minus_one → r'.voted_for ≡ r.voted_for

  KeepsVote-trans : {r r' r'' : RaftNode S} → KeepsVote r r' → KeepsVote r' r'' → KeepsVote r r''
  KeepsVote-trans {r} {r'} {r''} a b = record {
    term = omega (arith, a.term, b.term);
    vote = λ same given.
        let e : r'.current_term ≡ r.current_term = omega (arith, a.term, b.term) in
        let kept = a.vote e given in b.vote (omega arith) (λ free. given (sym kept ∙ free)) ∙ kept;
  }

  pub KeepsVote-same :
      {r r' : RaftNode S}
      → r'.current_term ≡ r.current_term
      → r'.voted_for ≡ r.voted_for
      → KeepsVote r r'
  KeepsVote-same e f = record { term = omega (arith, e); vote = λ _ _. f }

  pub request_vote-KeepsVote :
      (args : RequestVoteArgs) (r : RaftNode S) → KeepsVote r (request_vote args r).0
  unfolding request_vote
  request_vote-KeepsVote args r = record {
    term = ground arith;
    vote = λ same given.
        ground (arith, eq_ℤ_iff r.voted_for minus_one, eq_ℤ_iff r.voted_for args.candidate_id);
  }

  pub SameFace-KeepsVote : {r r' : RaftNode S} → SameFace r r' → KeepsVote r r'
  SameFace-KeepsVote same = KeepsVote-same same.term same.vote

  accept_leader-KeepsVote :
      (args : AppendEntriesArgs) (r : RaftNode S)
      → r.current_term ≤ args.term
      → KeepsVote r (accept_leader args r)
  unfolding accept_leader
  accept_leader-KeepsVote args r h = record {
    term = ground arith;
    vote = λ same given. ground arith;
  }

  pub append_entries-KeepsVote :
      (args : AppendEntriesArgs) (r : RaftNode S) → KeepsVote r (append_entries args r).0
  append_entries-KeepsVote args r = go (outcome args r)
    where
      go : {out : RaftNode S × AppendEntriesReply} → Outcome args r out → KeepsVote r out.0
      go (stale old) = KeepsVote-same refl refl
      go (mismatch new missing) = accept_leader-KeepsVote args r new
      go (stored new found) =
          KeepsVote-trans (accept_leader-KeepsVote args r new)
            (SameFace-KeepsVote (store_entries-SameFace args _))

  time_out-KeepsVote :
      (r : RaftNode S) → r.current_term + 1 < 2 ^ 64 → KeepsVote r (run_op time_out r)
  unfolding run_op election_timeout start_election
  time_out-KeepsVote r h = record { term = ground arith; vote = λ same given. ground arith }

  late_time_out-KeepsVote :
      (r : RaftNode S) → r.current_term + 1 < 2 ^ 64 → KeepsVote r (run_op late_time_out r)
  unfolding run_op start_election
  late_time_out-KeepsVote r h = record { term = ground arith; vote = λ same given. ground arith }

  pub count_vote-same :
      (peer : ℤ) (c : Campaign) (r : RaftNode S)
      → ((count_vote peer c r).1.current_term ≡ r.current_term)
        × ((count_vote peer c r).1.voted_for ≡ r.voted_for)
  unfolding count_vote
  count_vote-same peer c r = ground arith

  pub vote_reply-KeepsVote :
      (peer : ℤ) (reply : Option RequestVoteReply) (c : Campaign) (r : RaftNode S)
      → KeepsVote r (vote_reply peer reply c r).1
  unfolding vote_reply
  vote_reply-KeepsVote peer none c r = KeepsVote-same refl refl
  vote_reply-KeepsVote peer (some reply) c r = record {
    term = ground (arith, count_vote-same peer c r);
    vote = λ same given. ground (arith, count_vote-same peer c r);
  }

  pub append_reply-KeepsVote :
      (peer : ℤ) (args : AppendEntriesArgs) (reply : Option AppendEntriesReply) (r : RaftNode S)
      → KeepsVote r (append_reply peer args reply r)
  unfolding append_reply
  append_reply-KeepsVote peer args none r = KeepsVote-same refl refl
  append_reply-KeepsVote peer args (some reply) r =
      let k = SameFace-KeepsVote (success-SameFace peer args r) in
      record { term = ground (arith, k.term); vote = λ same given. ground (arith, k.vote) }

  -- Every operation but a restart keeps the term and the vote.
  pub run_op-KeepsVote :
      (op : NodeOp) (r : RaftNode S)
      → KeepsRunning op
      → r.current_term + 1 < 2 ^ 64
      → KeepsVote r (run_op op r)
  unfolding run_op
  run_op-KeepsVote (get_vote_request args) r k h = request_vote-KeepsVote args r
  run_op-KeepsVote (get_entries args) r k h = append_entries-KeepsVote args r
  run_op-KeepsVote time_out r k h = time_out-KeepsVote r h
  run_op-KeepsVote late_time_out r k h = late_time_out-KeepsVote r h
  run_op-KeepsVote (get_vote_reply peer reply c) r k h = vote_reply-KeepsVote peer reply c r
  run_op-KeepsVote (get_append_reply peer args reply) r k h =
      append_reply-KeepsVote peer args reply r
  run_op-KeepsVote heartbeat r k h = SameFace-KeepsVote (send_heartbeats-SameFace r)
  run_op-KeepsVote (client_start command) r k h = SameFace-KeepsVote (start-SameFace command r)
  run_op-KeepsVote shut_down r k h = SameFace-KeepsVote (stop-SameFace r)
  run_op-KeepsVote reboot r k h = absurd k

  -- Over a run without a restart the term does not fall, and a vote stands as long as its term.
  pub Run-KeepsVote : {r r' : RaftNode S} → Run r r' → KeepsVote r r'
  Run-KeepsVote here = KeepsVote-same refl refl
  Run-KeepsVote (next {r' = r'} op run k h) =
      KeepsVote-trans (Run-KeepsVote run) (run_op-KeepsVote op r' k h)

  -- A node that grants a vote, runs on without a restart, and grants a vote of the same term, votes
  -- for the same candidate both times (a candidate's id is never the -1 that stands for no vote).
  pub one_vote_per_term :
      (a b : RequestVoteArgs) (r later : RaftNode S)
      → (request_vote a r).1.vote_granted ≡ true
      → Run (request_vote a r).0 later
      → (request_vote b later).1.vote_granted ≡ true
      → a.term ≡ b.term
      → a.candidate_id ≢ minus_one
      → a.candidate_id ≡ b.candidate_id
  one_vote_per_term a b r later first run second same real =
      let (term₁, voted₁, _, _, _) = request_vote-granted a r first in
      let (_, _, _, not_newer, kept₂) = request_vote-granted b later second in
      let k = Run-KeepsVote run in
      let level : later.current_term ≡ (request_vote a r).0.current_term =
        omega (arith, k.term, term₁, not_newer, same) in
      let stands = k.vote level (λ free. real (sym voted₁ ∙ free)) ∙ voted₁ in
      sym stands ∙ kept₂ (omega (arith, level, term₁, same)) (λ free. real (sym stands ∙ free))
