-- ===== src/Raft/Cluster/Steps.antt =====
-- Each step of a cluster keeps what holds of its nodes and campaigns.
use distributed_fault_tolera.Prelude.{
  ℕ, ◌+◌, ◌/◌, ◌≤◌, ◌<◌, ◌^◌, Bytes, List, true, Option, none, some, ◌≡◌, refl, sym, ap, ◌∙◌, subst,
  arith, length, ℤ, pos, if_elim, inl, inr,
}
use distributed_fault_tolera.Raft.Node.{follower, RaftNode, Env, new_raft_node}
use distributed_fault_tolera.Raft.Vote.{RequestVoteReply, request_vote}
use distributed_fault_tolera.Raft.Vote.Rules.{request_vote-granted}
use distributed_fault_tolera.Raft.Election.{Campaign, vote_reply, other_peers}
use distributed_fault_tolera.Raft.Lifecycle.{set_peers}
use distributed_fault_tolera.Raft.Run.OneVote.{KeepsVote}
use distributed_fault_tolera.Raft.Cluster.Tally.{vote_reply-Tally}
use distributed_fault_tolera.Raft.Cluster.{
  idle, asked, answered, System, set_at, is_asked, Step, time_out, late_time_out, request,
  lose_request, lose_reply, count, other, init, Reach, here, next, system_of, campaigning,
  requesting, counting, reply_of,
}
use distributed_fault_tolera.Raft.Cluster.Counting.{count_if}
use distributed_fault_tolera.Raft.Cluster.Quiet.{Quiet, request_vote-Quiet, run_op-Quiet}
use distributed_fault_tolera.Raft.Cluster.Invariant.{
  Grows, Remembers, Honest, Fair, Fair-Grows, KeepsVote-Remembers, Quiet-Honest, votes_for,
}
use distributed_fault_tolera.Raft.Cluster.Preserved.{
  give, give-Grows, give-given, give-Remembers, Fair-answered, Fair-count,
}
use distributed_fault_tolera.Raft.Cluster.Starting.{
  asking, Started, start_election-Started, election_timeout-Started, Fair-asking, counted_by_self,
  is_asked-other_peers,
}
use distributed_fault_tolera.Raft.Cluster.Moves.{
  Fair-majority, campaigns-set_at, calls-set_at, nodes-set_at, nodes-quiet,
}

module _ {S : Type 0} where
  pub record Inv (n : ℕ) (s : System S) : Type 0 where
    pub nodes : (i : ℕ) → Honest n i s.ballot (s.nodes i)
    pub campaigns : (i t : ℕ) → Fair n i t s.ballot (s.campaigns i t) (s.calls i t)

  -- Node `i` of `n` before it takes part in anything.
  pub record IsNew (n i : ℕ) (r : RaftNode S) : Type 0 where
    pub id : r.id ≡ pos i
    pub size : length r.peers ≡ n
    pub state : r.state ≡ follower

  pub system_of-Inv :
      (n : ℕ) (nodes : ℕ → RaftNode S) → ((i : ℕ) → IsNew n i (nodes i)) → Inv n (system_of nodes)
  system_of-Inv n nodes new = record {
    nodes = λ i. record {
      id = (new i).id;
      size = (new i).size;
      past = λ t c e. ground (arith, e);
      stands = λ e. ground (arith, e, (new i).state);
      leads = λ below e. ground (arith, e, (new i).state);
    };
    campaigns = λ i t. record {
      self = refl;
      term = refl;
      candidate_id = refl;
      answers = λ j reply e. ground (arith, e);
      counts = λ j e. ground (arith, e);
      votes = counted_by_self n i (λ j. idle) (λ j. refl);
    };
  }

  pub init-IsNew :
      (n : ℕ) (peers : List (ℤ × Bytes)) (env : Env) (m : S)
      → length peers ≡ n
      → (i : ℕ) → IsNew n i (set_peers peers (new_raft_node (pos i) env m))
  unfolding set_peers new_raft_node
  init-IsNew n peers env m size i = record { id = refl; size = size; state = refl }

  pub init-Inv :
      (n : ℕ) (peers : List (ℤ × Bytes)) (env : Env) (m : S)
      → length peers ≡ n
      → Inv n (init peers env m)
  init-Inv n peers env m size = system_of-Inv n _ (init-IsNew n peers env m size)

  -- In the term of a campaign that it starts, node `i` has voted for no other node.
  pub time_out-free :
      (n i : ℕ) (s : System S) (r : RaftNode S) (c : Campaign) (peers : List (ℤ × Bytes))
      → (s.nodes i).current_term + 1 < 2 ^ 64
      → Started (s.nodes i) r c peers
      → Inv n s
      → (k : ℕ) → s.ballot i r.current_term ≡ some k
      → i ≡ k
  time_out-free n i s r c peers small st inv k e =
      let up : r.current_term ≡ (s.nodes i).current_term + 1 = ground (arith, st.term) in
      absurd (omega (arith, ((inv.nodes i).past r.current_term k e).0, up))

  -- A node that grants its vote of term `t` to node `i` has given it to no other node.
  pub request-free :
      (n i t j : ℕ) (s : System S)
      → Inv n s
      → (reply_of i t j s).vote_granted ≡ true
      → (k : ℕ) → s.ballot j t ≡ some k
      → i ≡ k
  request-free n i t j s inv granted k e =
      let (_, _, _, old, kept) = request_vote-granted (s.campaigns i t).args (s.nodes j) granted in
      let f = inv.campaigns i t in
      let (low, voted_before) = (inv.nodes j).past t k e in
      let level : t ≡ (s.nodes j).current_term = omega (arith, low, old, f.term) in
      let stands = voted_before level in
      let same = kept (sym level ∙ sym f.term) (λ none. ground (arith, stands, none)) in
      ground (arith, stands, same, f.candidate_id)

  -- Node `i` starts a campaign.
  time_out-Inv :
      (n i : ℕ) (s : System S) (r : RaftNode S) (c : Campaign) (peers : List (ℤ × Bytes))
      → (s.nodes i).current_term + 1 < 2 ^ 64
      → Started (s.nodes i) r c peers
      → Inv n s
      → Inv n (campaigning i r c peers s)
  time_out-Inv n i s r c peers small st inv =
      let t = r.current_term in
      let mine = inv.nodes i in
      let up : t ≡ (s.nodes i).current_term + 1 = ground (arith, st.term) in
      let grows = give-Grows i t i s.ballot (time_out-free n i s r c peers small st inv) in
      let keeps : KeepsVote (s.nodes i) r = record {
        term = omega (arith, up);
        vote = λ same _. absurd (omega (arith, up, same));
      } in
      record {
        nodes = nodes-set_at n i s.ballot _ s.nodes r grows inv.nodes (record {
          id = st.id ∙ mine.id;
          size = ap length st.same_peers ∙ mine.size;
          past =
              give-Remembers i t i s.ballot r refl (st.vote ∙ mine.id)
                (KeepsVote-Remembers keeps mine.past);
          stands = λ _. give-given i t i s.ballot;
          leads = λ below e. ground (arith, e, st.state);
        });
        campaigns =
            campaigns-set_at n i t _ s.campaigns s.calls c (asking peers)
              (λ k u. Fair-Grows grows (inv.campaigns k u))
              (subst (λ t. Fair n i t (give i r.current_term i s.ballot) c (asking peers))
                st.args_term
                (Fair-asking n i peers _ c (st.candidate_id ∙ mine.id) st.votes (
                  ap (is_asked i) st.asked_peers
                  ∙ ap (λ me. is_asked i (other_peers me (s.nodes i).peers)) mine.id
                  ∙ is_asked-other_peers i (s.nodes i).peers)));
      }

  -- Node `j` handles the request of the campaign of node `i` in term `t`.
  requesting-Inv :
      (n i t j : ℕ) (answer : Option RequestVoteReply) (s : System S)
      → s.calls i t j ≡ asked
      → ((reply : RequestVoteReply) → answer ≡ some reply → reply ≡ reply_of i t j s)
      → Inv n s
      → Inv n (requesting i t j (answered answer) s)
  requesting-Inv n i t j answer s before from inv = record {
    nodes = handled.0;
    campaigns =
        calls-set_at n i t _ s.campaigns s.calls _ (λ k u. Fair-Grows handled.1 (inv.campaigns k u))
          (Fair-answered j answer (Fair-Grows handled.1 (inv.campaigns i t)) before
            (λ reply e granted.
              handled.2 (subst (λ x. x.vote_granted ≡ true) (from reply e) granted)));
  }
    where
      r : RaftNode S
      r = (request_vote (s.campaigns i t).args (s.nodes j)).0

      quiet : Quiet (s.nodes j) r
      quiet = request_vote-Quiet (s.campaigns i t).args (s.nodes j)

      past : Remembers (s.ballot j) r
      past = KeepsVote-Remembers quiet.keeps (inv.nodes j).past

      handled :
          ((k : ℕ)
            → Honest n k (requesting i t j (answered answer) s).ballot (set_at j r s.nodes k))
          × Grows s.ballot (requesting i t j (answered answer) s).ballot
          × ((reply_of i t j s).vote_granted ≡ true
              → (requesting i t j (answered answer) s).ballot j t ≡ some i)
      handled =
          if_elim
            (λ ballot.
              ((k : ℕ) → Honest n k ballot (set_at j r s.nodes k))
              × Grows s.ballot ballot
              × ((reply_of i t j s).vote_granted ≡ true → ballot j t ≡ some i))
            (reply_of i t j s).vote_granted
            (λ granted.
              let (now, voted, _, _, _) =
                request_vote-granted (s.campaigns i t).args (s.nodes j) granted in
              let f = inv.campaigns i t in
              let grows = give-Grows j t i s.ballot (request-free n i t j s inv granted) in
              (
                nodes-set_at n j s.ballot _ s.nodes r grows inv.nodes (
                    Quiet-Honest quiet grows
                      (give-Remembers j t i s.ballot r (now ∙ f.term) (voted ∙ f.candidate_id) past)
                      (inv.nodes j)),
                grows,
                λ _. give-given j t i s.ballot,
              ))
            (λ refused. (
              nodes-quiet n j s.ballot s.nodes r inv.nodes
                  (Quiet-Honest quiet (λ k u c e. e) past (inv.nodes j)),
              λ k u c e. e,
              λ granted. ground (arith, granted, refused),
            ))

  -- The goroutine of node `i` for its campaign of term `t` and the peer `j` handles its reply.
  counting-Inv :
      (n i t j : ℕ) (reply : Option RequestVoteReply) (s : System S)
      → j < n
      → s.calls i t j ≡ answered reply
      → Inv n s
      → Inv n (counting i t j reply s)
  counting-Inv n i t j reply s small before inv =
      let mine = inv.nodes i in
      let out = vote_reply (pos j) reply (s.campaigns i t) (s.nodes i) in
      let tally = vote_reply-Tally (pos j) reply (s.campaigns i t) (s.nodes i) in
      let f = Fair-count j tally (inv.campaigns i t) before small in
      record {
        nodes = nodes-quiet n i s.ballot s.nodes out.1 inv.nodes (record {
          id = tally.id ∙ mine.id;
          size = ap length tally.peers ∙ mine.size;
          past = KeepsVote-Remembers tally.keeps mine.past;
          stands = λ e.
              let (was, same) = tally.stands e in
              subst (λ u. s.ballot i u ≡ some i) (sym same) (mine.stands was);
          leads = λ below e.
              let (same, how) = tally.leads e in
              subst (λ u. n / 2 + 1 ≤ count_if n (votes_for i u s.ballot)) (sym same)
                (elim how [
                  | inl was ↦ mine.leads below was
                  | inr (stood, current, majority) ↦
                      let level : (s.nodes i).current_term ≡ t =
                        current ∙ (inv.campaigns i t).term in
                      let own = subst (λ u. s.ballot i u ≡ some i) level (mine.stands stood) in
                      subst (λ u. n / 2 + 1 ≤ count_if n (votes_for i u s.ballot)) (sym level)
                        (omega (arith, majority, mine.size, Fair-majority f own below))
                ]);
        });
        campaigns = campaigns-set_at n i t s.ballot s.campaigns s.calls out.0 _ inv.campaigns f;
      }

  pub Step-Inv : (n : ℕ) {s s' : System S} → Step n s s' → Inv n s → Inv n s'
  Step-Inv n {s = s} (time_out i {r} {c} {peers} below small started) inv =
      time_out-Inv n i s r c peers small (election_timeout-Started (s.nodes i) r c peers started)
        inv
  Step-Inv n {s = s} (late_time_out i below small) inv =
      time_out-Inv n i s _ _ _ small (start_election-Started (s.nodes i)) inv
  Step-Inv n {s = s} (request i t j below before) inv =
      requesting-Inv n i t j _ s before (λ reply e. ground (arith, e)) inv
  Step-Inv n {s = s} (lose_request i t j before) inv = record {
    nodes = inv.nodes;
    campaigns =
        calls-set_at n i t _ s.campaigns s.calls _ inv.campaigns
          (Fair-answered j none (inv.campaigns i t) before (λ reply e. ground (arith, e)));
  }
  Step-Inv n {s = s} (lose_reply i t j below before) inv =
      requesting-Inv n i t j none s before (λ reply e. ground (arith, e)) inv
  Step-Inv n {s = s} (count i t j {reply} small before) inv =
      counting-Inv n i t j reply s small before inv
  Step-Inv n {s = s} (other i op k) inv =
      let quiet = run_op-Quiet op (s.nodes i) k in
      record {
        nodes = nodes-quiet n i s.ballot s.nodes _ inv.nodes (
            Quiet-Honest quiet (λ k u c e. e) (KeepsVote-Remembers quiet.keeps (inv.nodes i).past)
              (inv.nodes i));
        campaigns = inv.campaigns;
      }

  pub Reach-Inv : (n : ℕ) {start s : System S} → Inv n start → Reach n start s → Inv n s
  Reach-Inv n inv here = inv
  Reach-Inv n inv (next reach step) = Step-Inv n step (Reach-Inv n inv reach)
