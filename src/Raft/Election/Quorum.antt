-- ===== src/Raft/Election/Quorum.antt =====
-- Who becomes the leader: a candidate with the votes of a majority, and nobody else.
use distributed_fault_tolera.Prelude.{
  ℕ, ◌+◌, ◌/◌, ◌≤◌, Bytes, List, [], ◌∷◌, some, true, ◌≡◌, ◌≢◌, ◌↔◌, refl, arith, length, ℤ, inc,
  eq_ℤ, map,
}
use distributed_fault_tolera.Prelude.Assoc.{lookup}
use distributed_fault_tolera.Raft.Log.{last_index}
use distributed_fault_tolera.Raft.Node.{State, RaftNode, candidate, leader, become_leader}
use distributed_fault_tolera.Raft.Vote.{RequestVoteReply}
use distributed_fault_tolera.Raft.Election.{Campaign, eq_state, vote_reply, count_vote}

pub eq_state_iff : (a b : State) → (eq_state a b ≡ true) ↔ (a ≡ b)
unfolding eq_state
eq_state_iff a b = ground arith

lookup-fresh :
    (i : ℤ) (n : ℕ) (peers : List (ℤ × Bytes)) (address : Bytes)
    → lookup eq_ℤ i peers ≡ some address
    → lookup eq_ℤ i (map (λ (p : ℤ × Bytes). (p.0, n)) peers) ≡ some n
unfolding lookup
lookup-fresh i n [] address h = cc
lookup-fresh i n ((j, a) ∷ peers) address h = ground (arith, lookup-fresh i n peers address)

module _ {S : Type 0} where
  -- The reply of one peer makes a node that is not the leader the leader exactly when the node is
  -- still a candidate in the term of its campaign, the reply is no older than that term and grants
  -- the vote, and with this vote a majority of the peers has voted for the node.
  pub vote_reply-leader_iff :
      (peer : ℤ) (reply : RequestVoteReply) (c : Campaign) (r : RaftNode S)
      → r.state ≢ leader
      → ((vote_reply peer (some reply) c r).1.state ≡ leader) ↔ (
          (r.state ≡ candidate)
          × (r.current_term ≡ c.args.term)
          × (reply.term ≤ r.current_term)
          × (reply.vote_granted ≡ true)
          × (length r.peers / 2 + 1 ≤ c.votes + 1))
  unfolding vote_reply count_vote
  vote_reply-leader_iff peer reply c r other = ground (arith, eq_state_iff r.state candidate)

  -- A new leader expects of each peer that it lacks only what comes after the leader's own last
  -- entry, and knows of no entry that the peer holds.
  pub become_leader-indices :
      (r : RaftNode S) (i : ℤ) (address : Bytes)
      → lookup eq_ℤ i r.peers ≡ some address
      → (lookup eq_ℤ i (become_leader r).next_index ≡ some (inc (last_index r.log)))
        × (lookup eq_ℤ i (become_leader r).match_index ≡ some 0)
        × ((become_leader r).state ≡ leader)
        × ((become_leader r).leader_id ≡ r.id)
  unfolding become_leader
  become_leader-indices r i address h =
      (lookup-fresh i _ r.peers address h, lookup-fresh i 0 r.peers address h, refl, refl)
