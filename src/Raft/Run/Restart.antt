-- ===== src/Raft/Run/Restart.antt =====
-- A restart clears the vote and keeps the term, so a restarted node votes again in the same term.
use distributed_fault_tolera.Prelude.{◌≡◌, true, ◌∙◌, sym, subst, arith, inl, inr, minus_one}
use distributed_fault_tolera.Raft.Log.Numbered.{IsWellFormed}
use distributed_fault_tolera.Raft.Node.{RaftNode}
use distributed_fault_tolera.Raft.Vote.{RequestVoteArgs, request_vote}
use distributed_fault_tolera.Raft.Vote.Rules.{
  request_vote-granted, request_vote-granted_iff, IsUpToDate,
}
use distributed_fault_tolera.Raft.Lifecycle.{stop, restart}

module _ {S : Type 0} where
  restart-stop :
      (r : RaftNode S)
      → ((restart (stop r)).voted_for ≡ minus_one)
        × ((restart (stop r)).current_term ≡ r.current_term)
        × ((restart (stop r)).log ≡ r.log)
  unfolding restart stop
  restart-stop r = ground arith

  request_vote-log : (args : RequestVoteArgs) (r : RaftNode S) → (request_vote args r).0.log ≡ r.log
  unfolding request_vote
  request_vote-log args r = ground arith

  -- A node that has granted a vote, and is then stopped and restarted, grants the vote of the same
  -- term to any candidate whose log is up to date, whoever got the first one.
  pub restart_votes_again :
      (a b : RequestVoteArgs) (r : RaftNode S)
      → IsWellFormed r.log
      → (request_vote a r).1.vote_granted ≡ true
      → b.term ≡ a.term
      → IsUpToDate b r.log
      → (request_vote b (restart (stop (request_vote a r).0))).1.vote_granted ≡ true
  restart_votes_again a b r w first same fresh =
      let voted = (request_vote a r).0 in
      let (free, term, log) = restart-stop voted in
      let log₁ = log ∙ request_vote-log a r in
      (request_vote-granted_iff b (restart (stop voted)) (subst IsWellFormed (sym log₁) w)).1 (
        omega (arith, term, (request_vote-granted a r first).0, same),
        inr (inl free),
        subst (IsUpToDate b) (sym log₁) fresh,
      )
