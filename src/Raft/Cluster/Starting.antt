-- ===== src/Raft/Cluster/Starting.antt =====
-- The start of a campaign, and the start of the cluster.
use distributed_fault_tolera.Prelude.{
  ℕ, ◌<◌, Bytes, List, [], ◌∷◌, true, false, ==_iff, Option, some, ◌≡◌, refl, ◌∙◌, subst, arith, ℤ,
  pos, if_elim, inc, if◌then◌else◌,
}
use distributed_fault_tolera.Raft.Node.{RaftNode, candidate, leader}
use distributed_fault_tolera.Raft.Election.{
  Campaign, election_timeout, start_election, other_peers, eq_state,
}
use distributed_fault_tolera.Raft.Cluster.{Call, idle, asked, answered, finished, is_asked}
use distributed_fault_tolera.Raft.Cluster.Counting.{count_if, count_if_none, count_if_one_more}
use distributed_fault_tolera.Raft.Cluster.Invariant.{Fair, is_counted, counted_by}

-- No goroutine has counted a vote, so the campaign has the node's own.
pub counted_by_self :
    (n i : ℕ) (calls : ℕ → Call)
    → ((j : ℕ) → is_counted (calls j) ≡ false)
    → i < n
    → 1 ≡ count_if n (counted_by i calls)
counted_by_self n i calls fresh below =
    let one =
      count_if_one_more n i (λ j. false) (counted_by i calls)
        (λ k away. ground (arith, away, fresh k)) refl (ground (arith, (==_iff i i).1 refl))
        below in
    omega (arith, one, count_if_none n (λ j. false) (λ j. refl))

pub is_asked-other_peers :
    (i : ℕ) (peers : List (ℤ × Bytes)) → is_asked i (other_peers (pos i) peers) ≡ false
unfolding is_asked other_peers
is_asked-other_peers i [] = refl
is_asked-other_peers i ((j, address) ∷ peers) = ground (arith, is_asked-other_peers i peers)

-- The goroutines of a campaign that starts.
abbrev pub asking : List (ℤ × Bytes) → ℕ → Call
asking peers j = if is_asked j peers then asked else idle

pub Fair-asking :
    (n i : ℕ) (peers : List (ℤ × Bytes)) (ballot : ℕ → ℕ → Option ℕ) (c : Campaign)
    → c.args.candidate_id ≡ pos i
    → c.votes ≡ 1
    → is_asked i peers ≡ false
    → Fair n i c.args.term ballot c (asking peers)
Fair-asking n i peers ballot c mine one other = record {
  self = ground (arith, other);
  term = refl;
  candidate_id = mine;
  answers = λ j reply e granted.
      if_elim (λ x. x ≡ answered (some reply) → ballot j c.args.term ≡ some i) (is_asked j peers)
        (λ _ e. ground (arith, e)) (λ _ e. ground (arith, e)) e;
  counts = λ j e.
      if_elim (λ x. x ≡ finished true → ballot j c.args.term ≡ some i) (is_asked j peers)
        (λ _ e. ground (arith, e)) (λ _ e. ground (arith, e)) e;
  votes = λ below.
      one
      ∙ counted_by_self n i (asking peers)
          (λ j. if_elim (λ x. is_counted x ≡ false) (is_asked j peers) (λ _. refl) (λ _. refl))
          below;
}

module _ {S : Type 0} where
  -- A campaign of the node `r` has started.
  pub record Started (r r' : RaftNode S) (c : Campaign) (peers : List (ℤ × Bytes)) : Type 0 where
    pub id : r'.id ≡ r.id
    pub same_peers : r'.peers ≡ r.peers
    pub state : r'.state ≡ candidate
    pub term : r'.current_term ≡ inc r.current_term
    pub log : r'.log ≡ r.log
    pub vote : r'.voted_for ≡ r.id
    pub args_term : c.args.term ≡ r'.current_term
    pub candidate_id : c.args.candidate_id ≡ r.id
    pub votes : c.votes ≡ 1
    pub asked_peers : peers ≡ other_peers r.id r.peers

  pub start_election-Started :
      (r : RaftNode S) → let out = start_election r in Started r out.0 out.1 out.2
  unfolding start_election
  start_election-Started r = record {
    id = refl;
    same_peers = refl;
    state = refl;
    term = refl;
    log = refl;
    vote = refl;
    args_term = refl;
    candidate_id = refl;
    votes = refl;
    asked_peers = refl;
  }

  pub election_timeout-Started :
      (r r' : RaftNode S) (c : Campaign) (peers : List (ℤ × Bytes))
      → election_timeout r ≡ some (r', c, peers)
      → Started r r' c peers
  unfolding election_timeout
  election_timeout-Started r r' c peers =
      if_elim
        (λ (o : Option (RaftNode S × Campaign × List (ℤ × Bytes))).
          o ≡ some (r', c, peers) → Started r r' c peers)
        (eq_state r.state leader) (λ _ e. ground (arith, e))
        (λ _ e.
          let same : start_election r ≡ (r', c, peers) = ground (arith, e) in
          subst (λ (out : RaftNode S × Campaign × List (ℤ × Bytes)). Started r out.0 out.1 out.2)
            same (start_election-Started r))
