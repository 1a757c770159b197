-- ===== src/Raft/Cluster.antt =====
-- The nodes of a cluster and the vote calls between them, interleaved in any order: each handler and
-- each goroutine of startElection of kv-store/internal/raft/node.go is a step of its own. A call
-- passes through the transport (kv-store/internal/raft/transport.go), which may lose the request or
-- the reply. All other traffic reaches a node with arbitrary contents, and no node is restarted.
pub mod Counting
pub mod Quiet
pub mod Invariant
pub mod Preserved
pub mod Starting
pub mod Tally
pub mod Moves
pub mod Steps
pub mod Safety
pub mod Examples
use distributed_fault_tolera.Prelude.{
  ℕ, ◌+◌, ◌<◌, ◌^◌, Bytes, List, [], ◌∷◌, Option, none, some, Bool, true, false, ◌≡◌, ℤ, pos, eq_ℤ,
  ltb, ◌==◌, ◌||◌, if◌then◌else◌,
}
use distributed_fault_tolera.Raft.Node.{RaftNode, Env, new_raft_node}
use distributed_fault_tolera.Raft.Vote.{RequestVoteReply, request_vote}
use distributed_fault_tolera.Raft.Election.{Campaign, start_election, election_timeout, vote_reply}
use distributed_fault_tolera.Raft.Lifecycle.{set_peers}
use distributed_fault_tolera.Raft.Run.{
  NodeOp, get_entries, get_append_reply, heartbeat, client_start, shut_down, run_op,
}

-- `f` with the value `a` at `i`.
abbrev pub set_at {ℓ} : {A : Type ℓ} → ℕ → A → (ℕ → A) → ℕ → A
set_at i a f j = if i == j then a else f j

-- The goroutine of one campaign for one peer. `finished true` is one whose reply was counted.
pub data Call : Type 0 where
  idle asked : Call
  answered : Option RequestVoteReply → Call
  finished : Bool → Call

-- Node `i` has the id `i`. A node counts its term up when it starts a campaign, so a campaign is
-- known by its node and its term, and a goroutine by these and its peer. `ballot j t` is no part of
-- the program: it records whom node `j` has voted for in term `t`.
pub record System (S : Type 0) : Type 0 where
  pub nodes : ℕ → RaftNode S
  pub campaigns : ℕ → ℕ → Campaign
  pub calls : ℕ → ℕ → ℕ → Call
  pub ballot : ℕ → ℕ → Option ℕ

unfoldable pub is_asked : ℕ → List (ℤ × Bytes) → Bool
is_asked j [] = false
is_asked j ((i, address) ∷ peers) = eq_ℤ i (pos j) || is_asked j peers

-- The steps but those of elections, in which a node takes no part in the count of votes.
abbrev pub IsOther : NodeOp → Type 0
IsOther (get_entries _) = Unit
IsOther (get_append_reply _ _ _) = Unit
IsOther heartbeat = Unit
IsOther (client_start _) = Unit
IsOther shut_down = Unit
IsOther _ = ⊥

module _ {S : Type 0} where
  abbrev pub set_call : ℕ → ℕ → ℕ → Call → System S → ℕ → ℕ → ℕ → Call
  set_call i t j call s = set_at i (set_at t (set_at j call (s.calls i t)) (s.calls i)) s.calls

  abbrev pub set_ballot : ℕ → ℕ → ℕ → System S → ℕ → ℕ → Option ℕ
  set_ballot j t c s = set_at j (set_at t (some c) (s.ballot j)) s.ballot

  -- The election timer of node `i` has fired, and the node asks the peers of the list.
  abbrev pub campaigning : ℕ → RaftNode S → Campaign → List (ℤ × Bytes) → System S → System S
  campaigning i r c peers s =
      let t = r.current_term in
      record {
        nodes = set_at i r s.nodes;
        campaigns = set_at i (set_at t c (s.campaigns i)) s.campaigns;
        calls =
            set_at i (set_at t (λ j. if is_asked j peers then asked else idle) (s.calls i)) s.calls;
        ballot = set_ballot i t i s;
      }

  -- Node `i` starts a campaign, whatever its state.
  abbrev pub starting : ℕ → System S → System S
  starting i s = let (r, c, peers) = start_election (s.nodes i) in campaigning i r c peers s

  -- Node `j` handles the request of the campaign of node `i` in term `t`, and `call` becomes of the
  -- goroutine.
  abbrev pub requesting : ℕ → ℕ → ℕ → Call → System S → System S
  requesting i t j call s =
      let (r, reply) = request_vote (s.campaigns i t).args (s.nodes j) in
      record s {
        nodes = set_at j r s.nodes;
        calls = set_call i t j call s;
        ballot = if reply.vote_granted then set_ballot j t i s else s.ballot;
      }

  -- The goroutine of node `i` for its campaign of term `t` and the peer `j` handles its reply.
  abbrev pub counting : ℕ → ℕ → ℕ → Option RequestVoteReply → System S → System S
  counting i t j reply s =
      let (c, r) = vote_reply (pos j) reply (s.campaigns i t) (s.nodes i) in
      record s {
        nodes = set_at i r s.nodes;
        campaigns = set_at i (set_at t c (s.campaigns i)) s.campaigns;
        calls = set_call i t j (finished (ltb (s.campaigns i t).votes c.votes)) s;
      }

  abbrev pub reply_of : ℕ → ℕ → ℕ → System S → RequestVoteReply
  reply_of i t j s = (request_vote (s.campaigns i t).args (s.nodes j)).1

  -- `n` is the number of nodes. The timer looks at the state before it starts a campaign, and in
  -- between the node can become leader: then it starts late.
  pub data Step (n : ℕ) (s : System S) : System S → Type 0 where
    time_out :
        (i : ℕ) {r : RaftNode S} {c : Campaign} {peers : List (ℤ × Bytes)}
        → i < n
        → (s.nodes i).current_term + 1 < 2 ^ 64
        → election_timeout (s.nodes i) ≡ some (r, c, peers)
        → Step n s (campaigning i r c peers s)
    late_time_out :
        (i : ℕ) → i < n → (s.nodes i).current_term + 1 < 2 ^ 64 → Step n s (starting i s)
    request :
        (i t j : ℕ)
        → j < n
        → s.calls i t j ≡ asked
        → Step n s (requesting i t j (answered (some (reply_of i t j s))) s)
    lose_request :
        (i t j : ℕ)
        → s.calls i t j ≡ asked
        → Step n s (record s { calls = set_call i t j (answered none) s })
    lose_reply :
        (i t j : ℕ) → j < n → s.calls i t j ≡ asked → Step n s (requesting i t j (answered none) s)
    count :
        (i t j : ℕ) {reply : Option RequestVoteReply}
        → j < n
        → s.calls i t j ≡ answered reply
        → Step n s (counting i t j reply s)
    other :
        (i : ℕ) (op : NodeOp)
        → IsOther op
        → Step n s (record s { nodes = set_at i (run_op op (s.nodes i)) s.nodes })

  -- The nodes before any campaign.
  abbrev pub system_of : (ℕ → RaftNode S) → System S
  system_of nodes = record {
    nodes = nodes;
    campaigns = λ i t. record {
      args = record { term = t; candidate_id = pos i; last_log_index = 0; last_log_term = 0 };
      votes = 1;
    };
    calls = λ i t j. idle;
    ballot = λ j t. none;
  }

  -- All nodes as `NewRaftNode` and `SetPeers` leave them.
  abbrev pub init : List (ℤ × Bytes) → Env → S → System S
  init peers env s = system_of (λ i. set_peers peers (new_raft_node (pos i) env s))

  pub data Reach (n : ℕ) (start : System S) : System S → Type 0 where
    here : Reach n start start
    next : {s s' : System S} → Reach n start s → Step n s s' → Reach n start s'
