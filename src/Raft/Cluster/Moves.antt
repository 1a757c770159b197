-- ===== src/Raft/Cluster/Moves.antt =====
-- One node, or one campaign, goes on, and the others stay; the votes that a campaign has counted.
use distributed_fault_tolera.Prelude.{
  ℕ, ◌≤◌, ◌<◌, true, ◌==◌, ==_iff, Option, some, ◌≡◌, ap, subst, arith, Bool-cases, inl, inr,
}
use distributed_fault_tolera.Raft.Node.{RaftNode}
use distributed_fault_tolera.Raft.Election.{Campaign}
use distributed_fault_tolera.Raft.Cluster.{Call, idle, asked, answered, finished, set_at}
use distributed_fault_tolera.Raft.Cluster.Counting.{count_if, count_if_mono}
use distributed_fault_tolera.Raft.Cluster.Quiet.{Quiet-refl}
use distributed_fault_tolera.Raft.Cluster.Invariant.{
  Grows, Remembers, Honest, Fair, Quiet-Honest, votes_for, counted_by, is_counted,
}
use distributed_fault_tolera.Raft.Cluster.Preserved.{set_at_all, set_at_both}

-- With its own vote, a node has counted no more votes than it was given.
pub Fair-majority :
    {n i t : ℕ} {ballot : ℕ → ℕ → Option ℕ} {c : Campaign} {calls : ℕ → Call}
    → Fair n i t ballot c calls
    → ballot i t ≡ some i
    → i < n
    → c.votes ≤ count_if n (votes_for i t ballot)
Fair-majority {n} {i} {t} {ballot} {c} {calls} f own below =
    let each : (j : ℕ) → counted_by i calls j ≡ true → votes_for i t ballot j ≡ true = λ j h.
      elim (Bool-cases (i == j)) [
        | inl same ↦
            subst (λ k. votes_for i t ballot k ≡ true) ((==_iff i j).0 same) (ground (arith, own))
        | inr away ↦
            let e : ballot j t ≡ some i =
              f.counts j (counted-finished (calls j) (ground (arith, h, away))) in
            ground (arith, e)
      ] in
    omega (arith, f.votes below, count_if_mono n _ _ each)
  where
    counted-finished : (x : Call) → is_counted x ≡ true → x ≡ finished true
    counted-finished idle h = ground (arith, h)
    counted-finished asked h = ground (arith, h)
    counted-finished (answered _) h = ground (arith, h)
    counted-finished (finished b) h = ap finished h

-- One campaign, with its goroutines, goes on.
pub campaigns-set_at :
    (n i t : ℕ) (ballot : ℕ → ℕ → Option ℕ) (campaigns : ℕ → ℕ → Campaign)
    (calls : ℕ → ℕ → ℕ → Call) (c : Campaign) (mine : ℕ → Call)
    → ((k u : ℕ) → Fair n k u ballot (campaigns k u) (calls k u))
    → Fair n i t ballot c mine
    → (k u : ℕ)
    → Fair n k u ballot
        (set_at i (set_at t c (campaigns i)) campaigns k u)
        (set_at i (set_at t mine (calls i)) calls k u)
campaigns-set_at n i t ballot campaigns calls c mine all new =
    set_at_both (λ k f g. (u : ℕ) → Fair n k u ballot (f u) (g u)) i _ _ campaigns calls
      (set_at_both (λ u x y. Fair n i u ballot x y) t c mine (campaigns i) (calls i) new
        (λ u away. all i u))
      (λ k away. all k)

-- The goroutines of one campaign go on.
pub calls-set_at :
    (n i t : ℕ) (ballot : ℕ → ℕ → Option ℕ) (campaigns : ℕ → ℕ → Campaign)
    (calls : ℕ → ℕ → ℕ → Call) (mine : ℕ → Call)
    → ((k u : ℕ) → Fair n k u ballot (campaigns k u) (calls k u))
    → Fair n i t ballot (campaigns i t) mine
    → (k u : ℕ) → Fair n k u ballot (campaigns k u) (set_at i (set_at t mine (calls i)) calls k u)
calls-set_at n i t ballot campaigns calls mine all new =
    set_at_all (λ k g. (u : ℕ) → Fair n k u ballot (campaigns k u) (g u)) i _ calls
      (set_at_all (λ u y. Fair n i u ballot (campaigns i u) y) t mine (calls i) new
        (λ u away. all i u))
      (λ k away. all k)

module _ {S : Type 0} where
  -- One node goes on, and only its own ballots change.
  pub nodes-set_at :
      (n i : ℕ) (ballot : ℕ → ℕ → Option ℕ) (votes : ℕ → Option ℕ) (nodes : ℕ → RaftNode S)
      (r : RaftNode S)
      → Grows ballot (set_at i votes ballot)
      → ((k : ℕ) → Honest n k ballot (nodes k))
      → Honest n i (set_at i votes ballot) r
      → (k : ℕ) → Honest n k (set_at i votes ballot) (set_at i r nodes k)
  nodes-set_at n i ballot votes nodes r grows all mine =
      set_at_all (λ k r. Honest n k (set_at i votes ballot) r) i r nodes mine
        (λ k away.
          let same : ballot k ≡ set_at i votes ballot k = ground (arith, away) in
          Quiet-Honest (Quiet-refl (nodes k)) grows
            (subst (λ f. Remembers f (nodes k)) same (all k).past) (all k))

  -- One node goes on, and no vote is given.
  pub nodes-quiet :
      (n i : ℕ) (ballot : ℕ → ℕ → Option ℕ) (nodes : ℕ → RaftNode S) (r : RaftNode S)
      → ((k : ℕ) → Honest n k ballot (nodes k))
      → Honest n i ballot r
      → (k : ℕ) → Honest n k ballot (set_at i r nodes k)
  nodes-quiet n i ballot nodes r all mine =
      set_at_all (λ k r. Honest n k ballot r) i r nodes mine (λ k away. all k)
