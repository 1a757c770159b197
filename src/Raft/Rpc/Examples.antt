-- ===== src/Raft/Rpc/Examples.antt =====
-- A vote and an entry that are asked of a node over HTTP and in memory.
use distributed_fault_tolera.Prelude.{ℕ, Bytes, List, [], ◌∷◌, some, ◌≡◌, refl, pos, eq_bytes}
use distributed_fault_tolera.Prelude.Assoc.{lookup}
use distributed_fault_tolera.HttpApi.Text.{codes}
use distributed_fault_tolera.Raft.Node.{RaftNode, new_raft_node}
use distributed_fault_tolera.Raft.Vote.{RequestVoteArgs, request_vote}
use distributed_fault_tolera.Raft.AppendEntries.{AppendEntriesArgs, append_entries}
use distributed_fault_tolera.Raft.Rpc.{
  Codec, delivered, http_request_vote, http_append_entries, local_request_vote,
  local_append_entries,
}
use distributed_fault_tolera.Raft.Rpc.Equivalence.{http_call-local}

-- A codec of one value.
abbrev only : {A : Type 0} → A → Codec A
only a = record { marshal = λ _. some (codes "{}"); decode = λ _. some a }

abbrev home : Bytes
home = codes "http://localhost:9002"

abbrev listener : RaftNode ℕ
unfolding new_raft_node
listener = new_raft_node (pos 2) (record { now = 0; draw = 0 }) 0

abbrev votes : RequestVoteArgs
votes = record { term = 3; candidate_id = pos 1; last_log_index = 0; last_log_term = 0 }

abbrev entries : AppendEntriesArgs
entries = record {
  term = 2;
  leader_id = pos 1;
  prev_log_index = pos 0;
  prev_log_term = pos 0;
  entries =
      record {
        index = 1;
        term = 2;
        command = record { kind = 0; key = codes "k"; value = codes "v" };
      }
      ∷ [];
  leader_commit = pos 0;
}

abbrev nodes : List (Bytes × RaftNode ℕ)
nodes = (home, listener) ∷ []

http_call-local_example :
    let vc = only votes in
    let vr = only (request_vote votes listener).1 in
    let ec = only entries in
    let er = only (append_entries entries listener).1 in
    let vote = http_request_vote [] vc vr delivered votes listener in
    let local_vote = local_request_vote home votes nodes in
    let entry = http_append_entries [] ec er delivered entries listener in
    let local_entry = local_append_entries home entries nodes in
    (lookup eq_bytes home local_vote.0 ≡ some vote.0)
    × (local_vote.1 ≡ vote.1)
    × (lookup eq_bytes home local_entry.0 ≡ some entry.0)
    × (local_entry.1 ≡ entry.1)
unfolding lookup eq_bytes
http_call-local_example =
    http_call-local (only votes) (only (request_vote votes listener).1) (only entries)
      (only (append_entries entries listener).1) [] home nodes listener votes entries refl
      ((codes "{}", refl, refl), (codes "{}", refl, refl))
      ((codes "{}", refl, refl), (codes "{}", refl, refl))
