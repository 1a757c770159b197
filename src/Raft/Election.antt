-- ===== src/Raft/Election.antt =====
-- kv-store/internal/raft/node.go and append_entries.go: the election timer, startElection and the
-- goroutine that waits for one peer's vote. A `Campaign` holds what these goroutines share.
pub mod Quorum
use distributed_fault_tolera.Prelude.{
  ℕ, ◌+◌, ◌/◌, Bytes, List, [], ◌∷◌, Bool, true, false, ◌&&◌, ◌||◌, not, Option, none, some, ℤ,
  minus_one, eq_ℤ, ltb, leb, ◌==◌, if◌then◌else◌, length,
}
use distributed_fault_tolera.Events.{
  election_started, election_began, became_follower, stepped_down, vote_granted, vote_was_granted,
}
use distributed_fault_tolera.Raft.Log.{last_index, get, entry_or_zero}
use distributed_fault_tolera.Raft.Node.{
  State, RaftNode, follower, candidate, leader, emit_event, reset_election_timer, become_candidate,
  become_leader,
}
use distributed_fault_tolera.Raft.Vote.{RequestVoteArgs, RequestVoteReply}

pub record Campaign : Type 0 where
  pub args : RequestVoteArgs
  pub votes : ℕ

-- The enumeration's equality test.
unfoldable pub eq_state : State → State → Bool
eq_state follower follower = true
eq_state candidate candidate = true
eq_state leader leader = true
eq_state _ _ = false

-- The loop over the peers: the calls that it starts, one for each peer but the node itself.
unfoldable pub other_peers : ℤ → List (ℤ × Bytes) → List (ℤ × Bytes)
other_peers me [] = []
other_peers me ((i, address) ∷ peers) =
    let rest = other_peers me peers in if eq_ℤ i me then rest else (i, address) ∷ rest

module _ {S : Type 0} where
  unfoldable pub vote_args : RaftNode S → RequestVoteArgs
  vote_args r =
      let last = last_index r.log in
      record {
        term = r.current_term;
        candidate_id = r.id;
        last_log_index = last;
        last_log_term = if ltb 0 last then (entry_or_zero (get last r.log)).term else 0;
      }

  -- The node asks the peers of the list for their votes, and has its own.
  unfoldable pub start_election : RaftNode S → RaftNode S × Campaign × List (ℤ × Bytes)
  unfolding emit_event become_candidate reset_election_timer vote_args
  start_election r =
      let r₁ =
        emit_event election_started election_began minus_one 0
          (reset_election_timer (become_candidate r)) in
      (r₁, record { args = vote_args r₁; votes = 1 }, other_peers r₁.id r₁.peers)

  -- A round of runElectionTimer in which the timer has fired: a leader does nothing.
  unfoldable pub election_timeout : RaftNode S → Option (RaftNode S × Campaign × List (ℤ × Bytes))
  unfolding eq_state
  election_timeout r = if eq_state r.state leader then none else some (start_election r)

  unfoldable pub has_majority : ℕ → RaftNode S → Bool
  has_majority votes r = leb (length r.peers / 2 + 1) votes

  unfoldable pub count_vote : ℤ → Campaign → RaftNode S → Campaign × RaftNode S
  unfolding emit_event eq_state become_leader has_majority
  count_vote peer c r =
      let c₁ : Campaign = record c { votes = c.votes + 1 } in
      let r₁ = emit_event vote_granted vote_was_granted peer 0 r in
      if eq_state r₁.state candidate && (r₁.current_term == c.args.term) && has_majority c₁.votes r₁
      then (c₁, become_leader r₁)
      else (c₁, r₁)

  -- What the goroutine for `peer` does with the result of the call, `none` for an error.
  unfoldable pub vote_reply :
      ℤ → Option RequestVoteReply → Campaign → RaftNode S → Campaign × RaftNode S
  unfolding emit_event eq_state
  vote_reply peer none c r = (c, r)
  vote_reply peer (some reply) c r =
      if not (eq_state r.state candidate) || not (r.current_term == c.args.term)
      then (c, r)
      else if ltb r.current_term reply.term
      then (
        c,
        emit_event became_follower stepped_down peer 0
            (record r { current_term = reply.term; state = follower; voted_for = minus_one }),
      )
      else if reply.vote_granted
      then count_vote peer c r
      else (c, r)
