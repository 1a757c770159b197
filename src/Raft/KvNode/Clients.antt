-- ===== src/Raft/KvNode/Clients.antt =====
-- What Set and Delete of a KVNode do on a leader, and on another node.
use distributed_fault_tolera.Prelude.{[], ◌∷◌, ◌++◌, true, false, ◌≡◌, arith, ℤ, inc}
use distributed_fault_tolera.Raft.Log.{Command, append, last_index}
use distributed_fault_tolera.Raft.Node.{RaftNode, leader}
use distributed_fault_tolera.Raft.Election.{eq_state}
use distributed_fault_tolera.Raft.Lifecycle.{start}
use distributed_fault_tolera.Raft.KvNode.{Machine, answer}

module _ (command : Command) (at : ℤ) (r : RaftNode Machine) where
  pub answer-refused :
      eq_state r.state leader ≡ false → answer at (start command r) ≡ (r, false, at, 0)
  unfolding answer start
  answer-refused other = ground (arith, other)

  -- A leader answers with the index of the entry, which stands at the end of its log.
  pub answer-accepted :
      eq_state r.state leader ≡ true
      → answer at (start command r) ≡ ((start command r).0, true, at, inc (last_index r.log))
  unfolding answer start append
  answer-accepted leads = ground (arith, leads)

  pub start-log :
      eq_state r.state leader ≡ true
      → (start command r).0.log.entries
        ≡ r.log.entries
          ++ (record { index = inc (last_index r.log); term = r.current_term; command = command }
              ∷ [])
  unfolding start append
  start-log leads = ground (arith, leads)
