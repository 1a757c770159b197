-- ===== src/Raft/Network/History.antt =====
-- The leaders that the terms of a cluster have had, and their logs: what holds of every node.
use distributed_fault_tolera.Prelude.{
  ℕ, ◌+◌, ◌/◌, ◌≤◌, ◌<◌, List, [], ◌++◌, false, some, ◌≡◌, refl, ap, sym, ◌∙◌, subst, arith, All,
  ◌==◌, ==_iff, Bool-cases, inl, inr, if_elim, if◌then◌else◌,
}
use mathlib.Core.List.{append-nil}
use distributed_fault_tolera.Raft.Log.{LogEntry}
use distributed_fault_tolera.Raft.Node.{RaftNode, candidate, leader}
use distributed_fault_tolera.Raft.Heartbeat.{Heartbeat}
use distributed_fault_tolera.Raft.Cluster.{System, set_at, reply_of, set_ballot}
use distributed_fault_tolera.Raft.Cluster.Counting.{count_if}
use distributed_fault_tolera.Raft.Cluster.Quiet.{Quiet}
use distributed_fault_tolera.Raft.Cluster.Preserved.{give-Grows}
use distributed_fault_tolera.Raft.Cluster.Invariant.{Grows, votes_for, votes_for-Grows}
use distributed_fault_tolera.Raft.Cluster.Steps.{Inv, request-free}
use distributed_fault_tolera.Raft.Network.{Network}
use distributed_fault_tolera.Raft.Network.Lineage.{Lines, Extends}
use distributed_fault_tolera.Raft.Network.Copies.{Sane, Sane-Extends, IsCopy}

module _ {S : Type 0} where
  -- Node `i`: a candidate has not led in its term, a leader's log is the line of its term.
  pub record Placed (n : ℕ) (lines : Lines) (i : ℕ) (r : RaftNode S) : Type 0 where
    pub stands :
        r.state ≡ candidate → (xs : List LogEntry) → ¬ (lines r.current_term ≡ some (i, xs))
    pub leads : i < n → r.state ≡ leader → lines r.current_term ≡ some (i, r.log.entries)
    pub log : Sane lines r.log

  -- Node `i` has a majority of the votes of term `t`, and the term has begun for it.
  pub record Elected (n t i : ℕ) (s : System S) : Type 0 where
    pub below : i < n
    pub votes : n / 2 + 1 ≤ count_if n (votes_for i t s.ballot)
    pub begun : t ≤ (s.nodes i).current_term

  pub record History (n : ℕ) (lines : Lines) (s : Network S) : Type 0 where
    pub elected : (t i : ℕ) (xs : List LogEntry) → lines t ≡ some (i, xs) → Elected n t i s.system
    pub nodes : (i : ℕ) → Placed n lines i (s.system.nodes i)
    pub started : All (λ (h : Heartbeat). IsCopy lines h.args) s.started
    pub sent : All (λ (h : Heartbeat). IsCopy lines h.args) s.sent

  -- No vote is taken back and no term falls.
  pub record Later (s s' : System S) : Type 0 where
    pub grows : Grows s.ballot s'.ballot
    pub terms : (i : ℕ) → (s.nodes i).current_term ≤ (s'.nodes i).current_term

  pub Elected-Later :
      {n t i : ℕ} {s s' : System S} → Later s s' → Elected n t i s → Elected n t i s'
  Elected-Later {n} {t} {i} {s} {s'} l e = record {
    below = e.below;
    votes = omega (arith, e.votes, votes_for-Grows n i t l.grows);
    begun = omega (arith, e.begun, l.terms i);
  }

  pub Placed-Quiet :
      {n : ℕ} {lines : Lines} {i : ℕ} {r r' : RaftNode S}
      → Quiet r r'
      → r'.log ≡ r.log
      → Placed n lines i r
      → Placed n lines i r'
  Placed-Quiet {lines = lines} {i = i} {r} {r'} q log p = record {
    stands = λ e xs h. let (was, same) = q.stands e in p.stands was xs (ap lines (sym same) ∙ h);
    leads = λ below e.
        let (was, same) = q.leads e in
        ap lines same ∙ p.leads below was ∙ ap (λ l. some (i, l.entries)) (sym log);
    log = subst (Sane lines) (sym log) p.log;
  }

-- The line of term `t` is now `xs`, and node `i` has led it: a longer line than before, or a new one.
module _ (lines : Lines) (t i : ℕ) (xs : List LogEntry)
    (grown : (k : ℕ) (ys : List LogEntry)
      → lines t ≡ some (k, ys)
      → (more : List LogEntry) × (i ≡ k) × (xs ≡ ys ++ more)) where
  abbrev pub crowned : Lines
  crowned = set_at t (some (i, xs)) lines

  pub crowned-here : crowned t ≡ some (i, xs)
  crowned-here = ground (arith, (==_iff t t).1 refl)

  pub crowned-Extends : Extends lines crowned
  crowned-Extends u k ys h = elim (Bool-cases (t == u)) [
    | inl same ↦
        let (more, e, longer) = grown k ys (ap lines ((==_iff t u).0 same) ∙ h) in
        (more, ground (arith, same, e, longer))
    | inr differ ↦ ([], ground (arith, differ, h, append-nil ys))
  ]

  pub Placed-crowned :
      {S : Type 0} (n k : ℕ) (r : RaftNode S)
      → (i == k) ≡ false
      → Placed n lines k r
      → Placed n crowned k r
  Placed-crowned n k r away p = record {
    stands = λ e ys h. elim (Bool-cases (t == r.current_term)) [
      | inl same ↦ ground (arith, h, same, away, (==_iff i k).1)
      | inr differ ↦ p.stands e ys (ground (arith, h, differ))
    ];
    leads = λ below e. elim (Bool-cases (t == r.current_term)) [
      | inl same ↦
          let (_, level, _) =
            grown k r.log.entries (ap lines ((==_iff t r.current_term).0 same) ∙ p.leads below e) in
          ground (arith, (==_iff i k).1 level, away)
      | inr differ ↦ ground (arith, differ, p.leads below e)
    ];
    log = Sane-Extends crowned-Extends p.log;
  }

module _ {S : Type 0} where
  pub requesting-Grows :
      (n i t j : ℕ) (s : System S)
      → Inv n s
      → Grows s.ballot (if (reply_of i t j s).vote_granted then set_ballot j t i s else s.ballot)
  requesting-Grows n i t j s inv =
      if_elim (Grows s.ballot) (reply_of i t j s).vote_granted
        (λ granted. give-Grows j t i s.ballot (request-free n i t j s inv granted))
        (λ refused k u c e. e)
