-- ===== src/Raft/Vote.antt =====
-- kv-store/internal/raft/vote.go: the RPC RequestVote.
pub mod Rules
use distributed_fault_tolera.Prelude.{
  ℕ, Bool, true, false, ◌&&◌, not, ℤ, minus_one, eq_ℤ, ltb, leb, ◌==◌, if◌then◌else◌,
}
use distributed_fault_tolera.Raft.Log.{last_index, get, entry_or_zero}
use distributed_fault_tolera.Raft.Node.{RaftNode, follower, reset_election_timer}

pub record RequestVoteArgs : Type 0 where
  pub term : ℕ
  pub candidate_id : ℤ
  pub last_log_index : ℕ
  pub last_log_term : ℕ

pub record RequestVoteReply : Type 0 where
  pub term : ℕ
  pub vote_granted : Bool

module _ {S : Type 0} where
  -- The term of the last entry, 0 for an empty log.
  unfoldable pub last_log_term : RaftNode S → ℕ
  last_log_term r =
      let last = last_index r.log in if ltb 0 last then (entry_or_zero (get last r.log)).term else 0

  unfoldable pub is_candidate_log_up_to_date : ℕ → ℕ → RaftNode S → Bool
  is_candidate_log_up_to_date index term r =
      let last_term = last_log_term r in
      if not (term == last_term) then ltb last_term term else leb (last_index r.log) index

  unfoldable pub adopt_term : ℕ → RaftNode S → RaftNode S
  adopt_term term r =
      if ltb r.current_term term
      then record r { current_term = term; state = follower; voted_for = minus_one }
      else r

  unfoldable pub decide_vote : RequestVoteArgs → RaftNode S → RaftNode S × RequestVoteReply
  unfolding reset_election_timer
  decide_vote args r =
      if not (eq_ℤ r.voted_for minus_one) && not (eq_ℤ r.voted_for args.candidate_id)
      then (r, record { term = r.current_term; vote_granted = false })
      else if not (is_candidate_log_up_to_date args.last_log_index args.last_log_term r)
      then (r, record { term = r.current_term; vote_granted = false })
      else (
        reset_election_timer (record r { voted_for = args.candidate_id }),
        record { term = r.current_term; vote_granted = true },
      )

  unfoldable pub request_vote : RequestVoteArgs → RaftNode S → RaftNode S × RequestVoteReply
  unfolding adopt_term decide_vote
  request_vote args r =
      if ltb args.term r.current_term
      then (r, record { term = r.current_term; vote_granted = false })
      else decide_vote args (adopt_term args.term r)
