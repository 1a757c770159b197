-- ===== src/Raft/Cluster/Safety.antt =====
-- Election safety: a term has one leader.
use distributed_fault_tolera.Prelude.{
  ℕ, ◌+◌, ◌/◌, ◌≤◌, ◌<◌, Bytes, List, ◌≡◌, sym, subst, length, ℤ,
}
use distributed_fault_tolera.Raft.Node.{Env, leader}
use distributed_fault_tolera.Raft.Cluster.{System, init, Reach}
use distributed_fault_tolera.Raft.Cluster.Counting.{count_if}
use distributed_fault_tolera.Raft.Cluster.Invariant.{votes_for, majority-same}
use distributed_fault_tolera.Raft.Cluster.Steps.{Inv, Reach-Inv, init-Inv}

module _ {S : Type 0} where
  pub leaders-same :
      (n : ℕ) {s : System S} (i k : ℕ)
      → Inv n s
      → i < n
      → k < n
      → (s.nodes i).state ≡ leader
      → (s.nodes k).state ≡ leader
      → (s.nodes i).current_term ≡ (s.nodes k).current_term
      → i ≡ k
  leaders-same n {s} i k inv i_small k_small i_leads k_leads same =
      let t = (s.nodes i).current_term in
      let for_i = (inv.nodes i).leads i_small i_leads in
      let for_k : n / 2 + 1 ≤ count_if n (votes_for k t s.ballot) =
        subst (λ u. n / 2 + 1 ≤ count_if n (votes_for k u s.ballot)) (sym same)
          ((inv.nodes k).leads k_small k_leads) in
      majority-same n t i k s.ballot for_i for_k

  -- In every state that a cluster of `n` nodes reaches from its start without a restart, whatever
  -- the order of its steps and whatever calls are lost, two leaders of one term are the same node.
  pub one_leader_per_term :
      (n : ℕ) (peers : List (ℤ × Bytes)) (env : Env) (m : S) {s : System S} (i k : ℕ)
      → length peers ≡ n
      → Reach n (init peers env m) s
      → i < n
      → k < n
      → (s.nodes i).state ≡ leader
      → (s.nodes k).state ≡ leader
      → (s.nodes i).current_term ≡ (s.nodes k).current_term
      → i ≡ k
  one_leader_per_term n peers env m i k size reach =
      leaders-same n i k (Reach-Inv n (init-Inv n peers env m size) reach)
