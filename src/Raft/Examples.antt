-- ===== src/Raft/Examples.antt =====
-- The theorems about the Raft node at concrete nodes and calls.
use distributed_fault_tolera.Prelude.{
  ℕ, ◌+◌, ◌/◌, ◌≤◌, ◌<◌, ◌^◌, Bytes, List, [], ◌∷◌, ◌++◌, some, true, false, ◌≡◌, ◌↔◌, refl, arith,
  inl, inr, ℤ, pos, minus_one, take, drop, get_elem?, zero, suc, map,
}
use distributed_fault_tolera.Prelude.Assoc.{lookup}
use distributed_fault_tolera.Raft.Log.{Command, LogEntry, RaftLog, last_index, get}
use distributed_fault_tolera.Raft.Log.Numbered.{IsWellFormed}
use distributed_fault_tolera.Raft.Node.{RaftNode, follower, candidate, leader}
use distributed_fault_tolera.Raft.Vote.{
  RequestVoteArgs, RequestVoteReply, request_vote, adopt_term, decide_vote,
  is_candidate_log_up_to_date, last_log_term,
}
use distributed_fault_tolera.Raft.Vote.Rules.{
  MayVote, IsUpToDate, request_vote-granted_iff, last_term,
}
use distributed_fault_tolera.Raft.AppendEntries.{
  AppendEntriesArgs, append_entries, apply_committed, accept_leader, has_previous,
}
use distributed_fault_tolera.Raft.AppendEntries.Apply.{run_entries, apply_committed_lem}
use distributed_fault_tolera.Raft.AppendEntries.Merge.{merge}
use distributed_fault_tolera.Raft.AppendEntries.Sound.{IsSound, KeepsData}
use distributed_fault_tolera.Raft.AppendEntries.Handler.{
  Matches, append_entries-success_iff, append_entries-refused,
}
use distributed_fault_tolera.Raft.AppendEntries.Success.{append_entries-log, append_entries-IsSound}
use distributed_fault_tolera.Raft.Election.{Campaign, vote_reply}
use distributed_fault_tolera.Raft.Election.Quorum.{vote_reply-leader_iff}
use distributed_fault_tolera.Raft.Heartbeat.{
  heartbeat_args, update_commit_index, is_replicated, commit_loop, advance_commit, count_matches,
  index_of,
}
use distributed_fault_tolera.Raft.Heartbeat.Commit.{update_commit_index_lem}
use distributed_fault_tolera.Raft.Heartbeat.Replication.{
  Describes, heartbeat_args-Describes, append_entries-replicates,
}
use distributed_fault_tolera.Raft.Lifecycle.{restart, stop}
use distributed_fault_tolera.Raft.Run.{Run, here, next, shut_down, run_op}
use distributed_fault_tolera.Raft.Run.OneVote.{KeepsVote, Run-KeepsVote, one_vote_per_term}
use distributed_fault_tolera.Raft.Run.Restart.{restart_votes_again}
use distributed_fault_tolera.Prelude.{inc, ◌-◌}

abbrev put_a : Command
put_a = record { kind = 0; key = b'a' ∷ []; value = b'1' ∷ [] }

abbrev entry : ℕ → ℕ → LogEntry
entry i t = record { index = i; term = t; command = put_a }

abbrev short_log : RaftLog
short_log = record { entries = entry 1 1 ∷ entry 2 1 ∷ entry 3 2 ∷ [] }

short_log-IsWellFormed : IsWellFormed short_log
short_log-IsWellFormed = omega arith

-- The state machine of the examples counts the commands.
abbrev tally : Command → ℕ → ℕ
tally c n = n + 1

abbrev peers : List (ℤ × Bytes)
peers = (pos 0, []) ∷ (pos 1, []) ∷ (pos 2, []) ∷ []

-- A follower of node 1 in term 2, with two entries committed and one of them applied.
abbrev node : RaftNode ℕ
node = record {
  id = pos 0;
  state = follower;
  current_term = 2;
  voted_for = minus_one;
  election_timer = record { active = true; duration = 530 };
  log = short_log;
  next_index = [];
  match_index = [];
  commit_index = 2;
  last_applied = 1;
  peers = peers;
  apply_func = some tally;
  machine = 1;
  stopped = false;
  leader_id = pos 1;
  event_bus = some [];
  tasks = [];
  env = record { now = 7; draw = 30 };
}

node-IsSound : IsSound tally 0 node
unfolding run_entries
node-IsSound = record {
  wf = short_log-IsWellFormed;
  order = omega arith;
  inside = omega arith;
  isset = refl;
  replayed = refl;
}

-- A call of the leader of term 3: it replaces the third entry and adds a fourth.
abbrev call : AppendEntriesArgs
call = record {
  term = 3;
  leader_id = pos 2;
  prev_log_index = pos 2;
  prev_log_term = pos 1;
  entries = entry 3 3 ∷ entry 4 3 ∷ [];
  leader_commit = pos 3;
}

call_succeeds : (append_entries call node).1.success ≡ true
unfolding append_entries accept_leader has_previous last_index get
call_succeeds = refl

append_entries-log_example :
    (append_entries call node).0.log.entries
    ≡ take 2 short_log.entries ++ merge (drop 2 short_log.entries) call.entries
append_entries-log_example =
    append_entries-log call node short_log-IsWellFormed (omega arith) (omega arith) call_succeeds

append_entries-IsSound_example :
    IsSound tally 0 (append_entries call node).0
    × (2 ≤ (append_entries call node).0.commit_index)
    × (take 2 (append_entries call node).0.log.entries ≡ take 2 short_log.entries)
append_entries-IsSound_example =
    append_entries-IsSound call node node-IsSound (omega arith) (omega arith) (omega arith)
      (omega arith) tt

append_entries-success_iff_example :
    ((append_entries call node).1.success ≡ true) ↔ ((2 ≤ 3) × Matches (pos 2) (pos 1) short_log)
append_entries-success_iff_example =
    append_entries-success_iff call node short_log-IsWellFormed (omega arith)

-- The same call from a leader of an older term.
abbrev stale_call : AppendEntriesArgs
stale_call = record call { term = 1 }

append_entries-refused_example : KeepsData node (append_entries stale_call node).0
unfolding append_entries
append_entries-refused_example = append_entries-refused stale_call node refl

apply_committed_lem_example :
    ((apply_committed node).last_applied ≡ 2)
    × ((apply_committed node).machine ≡ run_entries tally 1 (take 1 (drop 1 short_log.entries)))
apply_committed_lem_example =
    apply_committed_lem tally node refl (omega arith) (omega arith) (omega arith)

-- The node as the leader of term 2: node 1 holds its whole log, node 2 nothing so far.
abbrev chief : RaftNode ℕ
chief = record node {
  state = leader;
  leader_id = pos 0;
  next_index = (pos 1, 4) ∷ (pos 2, 3) ∷ [];
  match_index = (pos 1, 3) ∷ (pos 2, 0) ∷ [];
}

update_commit_index_lem_example :
    (2 ≤ (update_commit_index chief).commit_index)
    × ((update_commit_index chief).commit_index ≤ last_index short_log)
    × ((i : ℕ)
        → 2 < (update_commit_index chief).commit_index
        → i ≤ (update_commit_index chief).commit_index
        → is_replicated i chief ≡ true)
    × ((i : ℕ)
        → (update_commit_index chief).commit_index < i
        → i ≤ last_index short_log
        → is_replicated i chief ≡ false)
    × ((more : ℕ)
        → commit_loop (last_index short_log - 2 + 1 + more) (inc 2) chief
          ≡ update_commit_index chief)
unfolding last_index
update_commit_index_lem_example = update_commit_index_lem chief (omega arith) (omega arith)

update_commit_index_runs : (update_commit_index chief).commit_index ≡ 3
unfolding update_commit_index last_index commit_loop advance_commit is_replicated count_matches
    index_of lookup
update_commit_index_runs = refl

small_terms : (e : LogEntry) (i : ℕ) → get_elem? short_log.entries i ≡ some e → e.term < 2 ^ 64
small_terms e zero h = ground arith
small_terms e (suc zero) h = ground arith
small_terms e (suc (suc zero)) h = ground arith
small_terms e (suc (suc (suc i))) h = cc

heartbeat_args-Describes_example : Describes (heartbeat_args (pos 2) chief) 2 short_log
unfolding index_of lookup
heartbeat_args-Describes_example =
    heartbeat_args-Describes (pos 2) chief 2 short_log-IsWellFormed small_terms refl (omega arith)

-- A follower that has the first two entries, and two others behind them.
abbrev lagging : RaftNode ℕ
lagging = record node {
  id = pos 2;
  current_term = 1;
  log = record { entries = entry 1 1 ∷ entry 2 1 ∷ entry 3 1 ∷ entry 4 1 ∷ [] };
}

append_entries-replicates_example :
    ((append_entries (heartbeat_args (pos 2) chief) lagging).1.success ≡ true)
    × (map
          (λ e. e.term)
          (take 3 (append_entries (heartbeat_args (pos 2) chief) lagging).0.log.entries)
        ≡ map (λ e. e.term) short_log.entries)
unfolding heartbeat_args
append_entries-replicates_example =
    append_entries-replicates (heartbeat_args (pos 2) chief) lagging 2 short_log
      heartbeat_args-Describes_example (omega arith) (omega arith) (omega arith) refl

-- Candidates of term 3, with a log as long as the node's.
abbrev ask : ℤ → RequestVoteArgs
ask i = record { term = 3; candidate_id = i; last_log_index = 3; last_log_term = 2 }

request_vote-granted_iff_example :
    ((request_vote (ask (pos 1)) node).1.vote_granted ≡ true)
    ↔ ((2 ≤ 3) × MayVote (ask (pos 1)) node × IsUpToDate (ask (pos 1)) short_log)
request_vote-granted_iff_example =
    request_vote-granted_iff (ask (pos 1)) node short_log-IsWellFormed

vote_granted : (i : ℤ) → (request_vote (ask i) node).1.vote_granted ≡ true
unfolding last_term
vote_granted i =
    (request_vote-granted_iff (ask i) node short_log-IsWellFormed).1
      (omega arith, inl (omega arith), inr (refl, omega arith))

-- The node votes for node 1 and is stopped.
abbrev voted : RaftNode ℕ
voted = (request_vote (ask (pos 1)) node).0

voted-Run : Run voted (run_op shut_down voted)
unfolding request_vote adopt_term decide_vote is_candidate_log_up_to_date last_log_term last_index
    get
voted-Run = next shut_down here tt (omega arith)

Run-KeepsVote_example : KeepsVote voted (run_op shut_down voted)
Run-KeepsVote_example = Run-KeepsVote voted-Run

voted_again : (request_vote (ask (pos 1)) (run_op shut_down voted)).1.vote_granted ≡ true
unfolding request_vote last_index get run_op stop is_candidate_log_up_to_date last_log_term
voted_again = refl

one_vote_per_term_example : pos 1 ≡ pos 1
one_vote_per_term_example =
    one_vote_per_term (ask (pos 1)) (ask (pos 1)) node (run_op shut_down voted)
      (vote_granted (pos 1)) voted-Run voted_again refl (λ e. cc)

-- After its vote for node 1 the node restarts, and votes for node 2 in the same term.
restart_votes_again_example :
    (request_vote (ask (pos 2)) (restart (stop voted))).1.vote_granted ≡ true
unfolding last_term
restart_votes_again_example =
    restart_votes_again (ask (pos 1)) (ask (pos 2)) node short_log-IsWellFormed
      (vote_granted (pos 1)) refl (inr (refl, omega arith))

-- A candidate of term 3 that has its own vote.
abbrev runner : RaftNode ℕ
runner = record node { state = candidate; current_term = 3; voted_for = pos 0 }

abbrev campaign : Campaign
campaign = record { args = ask (pos 0); votes = 1 }

abbrev yes_vote : RequestVoteReply
yes_vote = record { term = 3; vote_granted = true }

vote_reply-leader_iff_example :
    ((vote_reply (pos 1) (some yes_vote) campaign runner).1.state ≡ leader)
    ↔ ((candidate ≡ candidate) × (◌≡◌ {A = ℕ} 3 3) × (3 ≤ 3) × (true ≡ true) × (3 / 2 + 1 ≤ 1 + 1))
vote_reply-leader_iff_example = vote_reply-leader_iff (pos 1) yes_vote campaign runner (λ e. cc)
