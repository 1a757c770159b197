-- ===== src/Raft/Network/Crowned.antt =====
-- A node that wins an election begins the line of its term.
use distributed_fault_tolera.Prelude.{
  ℕ, ◌<◌, List, ◌++◌, Option, none, some, ◌≡◌, ◌⊎◌, ◌≢◌, refl, ap, sym, ◌∙◌, subst, arith, All-map,
  ◌==◌, ==_iff, Bool-cases, inl, inr, pos, dec_lt,
}
use distributed_fault_tolera.Raft.Log.{LogEntry}
use distributed_fault_tolera.Raft.Node.{RaftNode, State, follower, candidate, leader}
use distributed_fault_tolera.Raft.Vote.{RequestVoteReply}
use distributed_fault_tolera.Raft.Election.{vote_reply}
use distributed_fault_tolera.Raft.Heartbeat.{Heartbeat}
use distributed_fault_tolera.Raft.Cluster.{System, set_at, counting}
use distributed_fault_tolera.Raft.Cluster.Invariant.{Honest, majority-same}
use distributed_fault_tolera.Raft.Cluster.Tally.{Tally, vote_reply-Tally}
use distributed_fault_tolera.Raft.Cluster.Preserved.{set_at_all, set_at_here}
use distributed_fault_tolera.Raft.Cluster.Steps.{Inv}
use distributed_fault_tolera.Raft.Network.{Network}
use distributed_fault_tolera.Raft.Network.Lineage.{Lines}
use distributed_fault_tolera.Raft.Network.Logs.{log-vote_reply}
use distributed_fault_tolera.Raft.Network.Copies.{Sane, Sane-Extends, IsCopy, IsCopy-Extends}
use distributed_fault_tolera.Raft.Network.History.{
  Placed, Elected, History, Later, Elected-Later, crowned, crowned-here, crowned-Extends,
  Placed-crowned,
}
use distributed_fault_tolera.Raft.Network.Kept.{terms-set_at, Placed-set_at, same_lines}

state-cases : (x : State) → (x ≡ leader) ⊎ (x ≢ leader)
state-cases leader = inl refl
state-cases follower = inr (λ e. ground (arith, e))
state-cases candidate = inr (λ e. ground (arith, e))

module _ {S : Type 0} where
  -- Node `i`, which leads term `t`, goes on, and its log is the line of the term.
  pub crown_step :
      (n : ℕ) (lines : Lines) (t i : ℕ) (r : RaftNode S) (s : Network S) (s' : System S)
      (grown : (k : ℕ) (ys : List LogEntry)
        → lines t ≡ some (k, ys)
        → (more : List LogEntry) × (i ≡ k) × (r.log.entries ≡ ys ++ more))
      → s'.nodes ≡ set_at i r s.system.nodes
      → History n lines s
      → Later s.system s'
      → Elected n t i s'
      → r.state ≡ leader
      → r.current_term ≡ t
      → Sane (crowned lines t i r.log.entries grown) r.log
      → History n (crowned lines t i r.log.entries grown) (record s { system = s' })
  crown_step n lines t i r s s' grown moved h later won leads level sane =
      let new = crowned lines t i r.log.entries grown in
      let longer = crowned-Extends lines t i r.log.entries grown in
      record {
        elected = λ u k ys e. elim (Bool-cases (t == u)) [
          | inl same ↦
              let us : i ≡ k = ground (arith, e, same) in
              subst (λ v. Elected n v k s') ((==_iff t u).0 same)
                (subst (λ j. Elected n t j s') us won)
          | inr differ ↦ Elected-Later later (h.elected u k ys (ground (arith, e, differ)))
        ];
        nodes =
            subst (λ nodes. (k : ℕ) → Placed n new k (nodes k)) (sym moved)
              (set_at_all (λ k x. Placed n new k x) i r s.system.nodes
                (record {
                  stands = λ e. ground (arith, e, leads);
                  leads = λ below e. ap new level ∙ crowned-here lines t i r.log.entries grown;
                  log = sane;
                })
                (λ k away.
                  Placed-crowned lines t i r.log.entries grown n k (s.system.nodes k) away
                    (h.nodes k)));
        started =
            All-map (λ (m : Heartbeat). IsCopy lines m.args) s.started (λ m. IsCopy-Extends longer)
              h.started;
        sent =
            All-map (λ (m : Heartbeat). IsCopy lines m.args) s.sent (λ m. IsCopy-Extends longer)
              h.sent;
      }

  pub counting-History :
      (n : ℕ) (lines : Lines) (s : Network S) (i t j : ℕ) (reply : Option RequestVoteReply)
      → Inv n s.system
      → Inv n (counting i t j reply s.system)
      → History n lines s
      → (lines' : Lines) × History n lines' (record s { system = counting i t j reply s.system })
  counting-History n lines s i t j reply inv inv' h = elim (state-cases r'.state) [
    | inr no_leader ↦ kept (λ _ e. absurd (no_leader e))
    | inl now ↦ elim (dec_lt i n) [
      | no beyond ↦ kept (λ below _. absurd (beyond below))
      | yes below ↦ elim (tally.leads now).1 [
        | inl was ↦ kept (λ _ _. was)
        | inr (stood, _, _) ↦ won now below stood (lines r'.current_term) refl
      ]
    ]
  ]
    where
      s' : System S
      s' = counting i t j reply s.system

      r : RaftNode S
      r = s.system.nodes i

      r' : RaftNode S
      r' = (vote_reply (pos j) reply (s.system.campaigns i t) r).1

      tally :
          Tally reply
            (s.system.campaigns i t)
            (vote_reply (pos j) reply (s.system.campaigns i t) r).0
            r
            r'
      tally = vote_reply-Tally (pos j) reply (s.system.campaigns i t) r

      log : r'.log ≡ r.log
      log = log-vote_reply (pos j) reply (s.system.campaigns i t) r

      later : Later s.system s'
      later = record {
        grows = λ j t c e. e;
        terms = terms-set_at i r' s.system.nodes tally.keeps.term;
      }

      kept :
          (i < n → r'.state ≡ leader → r.state ≡ leader)
          → (lines' : Lines) × History n lines' (record s { system = s' })
      kept before = (
        lines,
        same_lines s' h later (
            Placed-set_at i r' s.system.nodes h.nodes (record {
              stands = λ e xs led.
                  let (was, same) = tally.stands e in
                  (h.nodes i).stands was xs (ap lines (sym same) ∙ led);
              leads = λ below e.
                  ap lines (tally.leads e).0
                  ∙ (h.nodes i).leads below (before below e)
                  ∙ ap (λ l. some (i, l.entries)) (sym log);
              log = subst (Sane lines) (sym log) (h.nodes i).log;
            })),
      )

      mine : Inv n s' → Honest n i s'.ballot r'
      mine v = subst (Honest n i s'.ballot) (set_at_here i r' s.system.nodes) (v.nodes i)

      won :
          r'.state ≡ leader
          → i < n
          → r.state ≡ candidate
          → (o : Option (ℕ × List LogEntry)) → lines r'.current_term ≡ o
          → (lines' : Lines) × History n lines' (record s { system = s' })
      won now below stood none e =
          let grown : (k : ℕ) (ys : List LogEntry)
              → lines r'.current_term ≡ some (k, ys)
              → (more : List LogEntry) × (i ≡ k) × (r'.log.entries ≡ ys ++ more) =
            λ k ys led. cc (e, led) in
          (
            crowned lines r'.current_term i r'.log.entries grown,
            crown_step n lines r'.current_term i r' s s' grown refl h later
                (record {
                  below = below;
                  votes = (mine inv').leads below now;
                  begun = omega (arith, ap (λ x. x.current_term) (set_at_here i r' s.system.nodes));
                })
                now refl
                (subst (Sane (crowned lines r'.current_term i r'.log.entries grown)) (sym log) (
                  Sane-Extends (crowned-Extends lines r'.current_term i r'.log.entries grown)
                    (h.nodes i).log)),
          )
      won now below stood (some (k, ys)) e =
          let same : i ≡ k =
            majority-same n r'.current_term i k s'.ballot ((mine inv').leads below now)
              (h.elected r'.current_term k ys e).votes in
          absurd (
            (h.nodes i).stands stood ys
              (ap lines (sym (tally.leads now).0) ∙ e ∙ ap (λ m. some (m, ys)) (sym same)))
