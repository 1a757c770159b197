-- ===== src/Raft/Network/Kept.antt =====
-- Each step of a cluster with its calls keeps what holds of its nodes, or extends the leaders' logs.
use distributed_fault_tolera.Prelude.{
  ℕ, ◌+◌, ◌≤◌, ◌<◌, ◌^◌, Bytes, List, Option, ◌≡◌, sym, subst, arith, ℤ,
}
use distributed_fault_tolera.Raft.Node.{RaftNode}
use distributed_fault_tolera.Raft.Vote.{RequestVoteReply}
use distributed_fault_tolera.Raft.Election.{Campaign}
use distributed_fault_tolera.Raft.Run.{NodeOp, run_op}
use distributed_fault_tolera.Raft.Cluster.{
  System, IsOther, set_at, answered, campaigning, requesting,
}
use distributed_fault_tolera.Raft.Cluster.Quiet.{request_vote-Quiet, run_op-Quiet}
use distributed_fault_tolera.Raft.Cluster.Preserved.{give-Grows, set_at_all}
use distributed_fault_tolera.Raft.Cluster.Starting.{Started}
use distributed_fault_tolera.Raft.Cluster.Steps.{Inv, time_out-free}
use distributed_fault_tolera.Raft.Network.{Network, handling}
use distributed_fault_tolera.Raft.Network.Lineage.{Lines}
use distributed_fault_tolera.Raft.Network.Logs.{log-request_vote}
use distributed_fault_tolera.Raft.Network.Copies.{Sane}
use distributed_fault_tolera.Raft.Network.History.{
  Placed, History, Later, Elected-Later, Placed-Quiet, requesting-Grows,
}

module _ {S : Type 0} where
  -- One node goes on, in a term that is not lower.
  pub terms-set_at :
      (i : ℕ) (r : RaftNode S) (nodes : ℕ → RaftNode S)
      → (nodes i).current_term ≤ r.current_term
      → (k : ℕ) → (nodes k).current_term ≤ (set_at i r nodes k).current_term
  terms-set_at i r nodes up =
      set_at_all (λ k x. (nodes k).current_term ≤ x.current_term) i r nodes up
        (λ k away. omega arith)

  pub Placed-set_at :
      {n : ℕ} {lines : Lines} (i : ℕ) (r : RaftNode S) (nodes : ℕ → RaftNode S)
      → ((k : ℕ) → Placed n lines k (nodes k))
      → Placed n lines i r
      → (k : ℕ) → Placed n lines k (set_at i r nodes k)
  Placed-set_at {n} {lines} i r nodes all mine =
      set_at_all (λ k x. Placed n lines k x) i r nodes mine (λ k away. all k)

  -- The lines stay, and the nodes are placed as they say.
  pub same_lines :
      {n : ℕ} {lines : Lines} {s : Network S} (s' : System S)
      → History n lines s
      → Later s.system s'
      → ((k : ℕ) → Placed n lines k (s'.nodes k))
      → History n lines (record s { system = s' })
  same_lines s' h l nodes = record {
    elected = λ t i xs e. Elected-Later l (h.elected t i xs e);
    nodes = nodes;
    started = h.started;
    sent = h.sent;
  }

  -- A node takes a quiet step and keeps its log.
  pub quiet_step :
      (n : ℕ) (lines : Lines) (i : ℕ) (op : NodeOp) (s : Network S)
      → IsOther op
      → (run_op op (s.system.nodes i)).log ≡ (s.system.nodes i).log
      → History n lines s
      → History n lines (record s { system = handling i op s.system })
  quiet_step n lines i op s k same h =
      let q = run_op-Quiet op (s.system.nodes i) k in
      same_lines (handling i op s.system) h
        (record { grows = λ j t c e. e; terms = terms-set_at i _ s.system.nodes q.keeps.term })
        (Placed-set_at i _ s.system.nodes h.nodes (Placed-Quiet q same (h.nodes i)))

  pub time_out-History :
      (n : ℕ) (lines : Lines) (s : Network S) (i : ℕ) (r : RaftNode S) (c : Campaign)
      (peers : List (ℤ × Bytes))
      → (s.system.nodes i).current_term + 1 < 2 ^ 64
      → Started (s.system.nodes i) r c peers
      → Inv n s.system
      → History n lines s
      → History n lines (record s { system = campaigning i r c peers s.system })
  time_out-History n lines s i r c peers small st inv h =
      let up : r.current_term ≡ (s.system.nodes i).current_term + 1 = ground (arith, st.term) in
      same_lines (campaigning i r c peers s.system) h
        (record {
          grows =
              give-Grows i r.current_term i s.system.ballot
                (time_out-free n i s.system r c peers small st inv);
          terms = terms-set_at i r s.system.nodes (omega (arith, up));
        })
        (Placed-set_at i r s.system.nodes h.nodes (record {
          stands = λ e xs led. omega (arith, (h.elected r.current_term i xs led).begun, up);
          leads = λ below e. ground (arith, e, st.state);
          log = subst (Sane lines) (sym st.log) (h.nodes i).log;
        }))

  pub requesting-History :
      (n : ℕ) (lines : Lines) (s : Network S) (i t j : ℕ) (answer : Option RequestVoteReply)
      → Inv n s.system
      → History n lines s
      → History n lines (record s { system = requesting i t j (answered answer) s.system })
  requesting-History n lines s i t j answer inv h =
      let args = (s.system.campaigns i t).args in
      let q = request_vote-Quiet args (s.system.nodes j) in
      same_lines (requesting i t j (answered answer) s.system) h
        (record {
          grows = requesting-Grows n i t j s.system inv;
          terms = terms-set_at j _ s.system.nodes q.keeps.term;
        })
        (Placed-set_at j _ s.system.nodes h.nodes
          (Placed-Quiet q (log-request_vote args (s.system.nodes j)) (h.nodes j)))
