-- ===== src/Raft/Cluster/Examples.antt =====
-- A cluster of three nodes in which node 0 is elected with the vote of node 1.
use distributed_fault_tolera.Prelude.{ℕ, List, [], ◌∷◌, some, ◌≡◌, refl, pos, arith, Bytes, ℤ}
use distributed_fault_tolera.Raft.Node.{RaftNode, Env, leader, new_raft_node}
use distributed_fault_tolera.Raft.Election.{
  start_election, election_timeout, other_peers, vote_reply, count_vote,
}
use distributed_fault_tolera.Raft.Log.{last_index}
use distributed_fault_tolera.Raft.Vote.{request_vote, is_candidate_log_up_to_date, last_log_term}
use distributed_fault_tolera.Raft.Lifecycle.{set_peers}
use distributed_fault_tolera.Raft.Cluster.{
  is_asked, System, answered, init, campaigning, requesting, counting, reply_of, Reach, here, next,
  time_out, request, count,
}
use distributed_fault_tolera.Raft.Cluster.Safety.{one_leader_per_term}

abbrev pub three_peers : List (ℤ × Bytes)
three_peers = (pos 0, []) ∷ (pos 1, []) ∷ (pos 2, []) ∷ []

abbrev pub calm : Env
calm = record { now = 0; draw = 7 }

abbrev node_0 : RaftNode ℕ
node_0 = set_peers three_peers (new_raft_node (pos 0) calm 0)

abbrev pub started : System ℕ
started =
    let out = start_election node_0 in campaigning 0 out.0 out.1 out.2 (init three_peers calm 0)

abbrev pub asked_1 : System ℕ
asked_1 = requesting 0 1 1 (answered (some (reply_of 0 1 1 started))) started

abbrev pub elected : System ℕ
elected = counting 0 1 1 (some (reply_of 0 1 1 started)) asked_1

pub elected-Reach : Reach 3 (init three_peers calm 0) elected
unfolding election_timeout start_election set_peers new_raft_node is_asked other_peers
elected-Reach =
    next
      (next (next here (time_out 0 (omega arith) (omega arith) refl))
        (request 0 1 1 (omega arith) refl))
      (count 0 1 1 (omega arith) refl)

elected-leader : (elected.nodes 0).state ≡ leader
unfolding election_timeout start_election set_peers new_raft_node vote_reply request_vote
    is_candidate_log_up_to_date last_index last_log_term count_vote
elected-leader = refl

one_leader_per_term_example : ◌≡◌ {A = ℕ} 0 0
one_leader_per_term_example =
    one_leader_per_term 3 three_peers calm 0 0 0 refl elected-Reach (omega arith) (omega arith)
      elected-leader elected-leader refl
