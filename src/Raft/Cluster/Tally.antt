-- ===== src/Raft/Cluster/Tally.antt =====
-- What the reply to a vote request does to the campaign and to the node.
use distributed_fault_tolera.Prelude.{
  ltb, if◌then◌else◌, if_elim, minus_one, ltb→lt, ℕ, ◌+◌, ◌<◌, ◌≡◌, refl, arith, ℤ, Option, none,
  some, true, ◌⊎◌, inl, inr, ◌/◌, ◌≤◌, length,
}
use distributed_fault_tolera.Events.{became_follower, stepped_down}
use distributed_fault_tolera.Raft.Node.{RaftNode, follower, candidate, leader, emit_event}
use distributed_fault_tolera.Raft.Vote.{RequestVoteReply}
use distributed_fault_tolera.Raft.Election.{Campaign, vote_reply, count_vote}
use distributed_fault_tolera.Raft.Election.Quorum.{eq_state_iff}
use distributed_fault_tolera.Raft.Run.OneVote.{count_vote-same, KeepsVote, KeepsVote-same}
use distributed_fault_tolera.Raft.Cluster.Quiet.{Stays}

module _ {S : Type 0} where
  -- What the reply of one peer does to the campaign and to the node: a vote is counted for a reply
  -- that grants it, and the node is the leader afterwards only if it was before, or won.
  pub record Tally (reply : Option RequestVoteReply) (c c' : Campaign) (r r' : RaftNode S)
      : Type 0 where
    pub id : r'.id ≡ r.id
    pub peers : r'.peers ≡ r.peers
    pub keeps : KeepsVote r r'
    pub args : c'.args ≡ c.args
    pub counted :
        (c'.votes ≡ c.votes)
        ⊎ ((x : RequestVoteReply) × (reply ≡ some x)
            × (x.vote_granted ≡ true)
            × (c'.votes ≡ c.votes + 1))
    pub stands : Stays candidate r r'
    pub leads :
        r'.state ≡ leader
        → (r'.current_term ≡ r.current_term)
          × ((r.state ≡ leader)
              ⊎ ((r.state ≡ candidate)
                  × (r.current_term ≡ c.args.term)
                  × (length r.peers / 2 + 1 ≤ c'.votes)))

  count_vote-Tally :
      (peer : ℤ) (x : RequestVoteReply) (c : Campaign) (r : RaftNode S)
      → x.vote_granted ≡ true
      → KeepsVote r (count_vote peer c r).1
      → r.state ≡ candidate
      → r.current_term ≡ c.args.term
      → Tally (some x) c (count_vote peer c r).0 r (count_vote peer c r).1
  unfolding count_vote
  count_vote-Tally peer x c r granted keeps up same = record {
    id = ground arith;
    peers = ground arith;
    keeps = keeps;
    args = ground arith;
    counted = inr (x, refl, granted, ground arith);
    stands = λ e. ground arith;
    leads = λ e. (ground arith, inr (up, same, ground arith));
  }

  idle-Tally :
      (reply : Option RequestVoteReply) (c : Campaign) (r : RaftNode S) → Tally reply c c r r
  idle-Tally reply c r = record {
    id = refl;
    peers = refl;
    keeps = KeepsVote-same refl refl;
    args = refl;
    counted = inl refl;
    stands = λ e. (e, refl);
    leads = λ e. (refl, inl e);
  }

  -- A reply of a newer term.
  step_down : ℤ → ℕ → RaftNode S → RaftNode S
  unfolding emit_event
  step_down peer t r =
      emit_event became_follower stepped_down peer 0
        (record r { current_term = t; state = follower; voted_for = minus_one })

  step_down-Tally :
      (peer : ℤ) (x : RequestVoteReply) (c : Campaign) (r : RaftNode S)
      → r.current_term < x.term
      → Tally (some x) c c r (step_down peer x.term r)
  unfolding step_down
  step_down-Tally peer x c r newer = record {
    id = refl;
    peers = refl;
    keeps = record {
      term = omega (arith, newer);
      vote = λ same given. absurd (omega (arith, same, newer));
    };
    args = refl;
    counted = inl refl;
    stands = λ e. ground (arith, e);
    leads = λ e. ground (arith, e);
  }

  pub vote_reply-Tally :
      (peer : ℤ) (reply : Option RequestVoteReply) (c : Campaign) (r : RaftNode S)
      → Tally reply c (vote_reply peer reply c r).0 r (vote_reply peer reply c r).1
  unfolding vote_reply step_down
  vote_reply-Tally peer none c r = idle-Tally none c r
  vote_reply-Tally peer (some x) c r =
      let Out : Type 0 = Campaign × RaftNode S in
      let P : Out → Type 0 = λ out. Tally (some x) c out.0 r out.1 in
      let voted : Out = if x.vote_granted then count_vote peer c r else (c, r) in
      let answered : Out =
        if ltb r.current_term x.term then (c, step_down peer x.term r) else voted in
      let idle : P (c, r) = idle-Tally (some x) c r in
      let same = count_vote-same peer c r in
      if_elim P _ {x = (c, r)} {y = answered} (λ over. idle)
        (λ standing.
          if_elim P _ {x = (c, step_down peer x.term r)} {y = voted}
            (λ newer. step_down-Tally peer x c r (ltb→lt _ _ newer))
            (λ level.
              if_elim P x.vote_granted {x = count_vote peer c r} {y = (c, r)}
                (λ granted.
                  count_vote-Tally peer x c r granted (KeepsVote-same same.0 same.1)
                    (ground (arith, eq_state_iff r.state candidate)) (ground arith))
                (λ refused. idle)))
