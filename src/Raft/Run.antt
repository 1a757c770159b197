-- ===== src/Raft/Run.antt =====
-- Runs of one node: its handlers in any order, with whatever arguments the others send.
pub mod Same
pub mod OneVote
pub mod Restart
use distributed_fault_tolera.Prelude.{ℕ, ◌+◌, ◌<◌, ◌^◌, Bytes, List, Option, none, some, ℤ}
use distributed_fault_tolera.Raft.Log.{Command}
use distributed_fault_tolera.Raft.Node.{RaftNode}
use distributed_fault_tolera.Raft.Vote.{RequestVoteArgs, RequestVoteReply, request_vote}
use distributed_fault_tolera.Raft.AppendEntries.{
  AppendEntriesArgs, AppendEntriesReply, append_entries,
}
use distributed_fault_tolera.Raft.Election.{Campaign, start_election, election_timeout, vote_reply}
use distributed_fault_tolera.Raft.Heartbeat.{send_heartbeats, append_reply}
use distributed_fault_tolera.Raft.Lifecycle.{start, stop, restart}

-- What can happen to a node. A late timeout is one where the node has become leader since the timer
-- looked at its state.
pub data NodeOp : Type 0 where
  get_vote_request : RequestVoteArgs → NodeOp
  get_entries : AppendEntriesArgs → NodeOp
  time_out late_time_out : NodeOp
  get_vote_reply : ℤ → Option RequestVoteReply → Campaign → NodeOp
  get_append_reply : ℤ → AppendEntriesArgs → Option AppendEntriesReply → NodeOp
  heartbeat : NodeOp
  client_start : Command → NodeOp
  shut_down : NodeOp
  reboot : NodeOp

module _ {S : Type 0} where
  after_timeout : RaftNode S → Option (RaftNode S × Campaign × List (ℤ × Bytes)) → RaftNode S
  after_timeout r none = r
  after_timeout r (some (r', campaign, asked)) = r'

  unfoldable pub run_op : NodeOp → RaftNode S → RaftNode S
  unfolding after_timeout
  run_op (get_vote_request args) r = (request_vote args r).0
  run_op (get_entries args) r = (append_entries args r).0
  run_op time_out r = after_timeout r (election_timeout r)
  run_op late_time_out r = (start_election r).0
  run_op (get_vote_reply peer reply c) r = (vote_reply peer reply c r).1
  run_op (get_append_reply peer args reply) r = append_reply peer args reply r
  run_op heartbeat r = (send_heartbeats r).0
  run_op (client_start command) r = (start command r).0
  run_op shut_down r = stop r
  run_op reboot r = restart r

-- All but `reboot`.
abbrev pub KeepsRunning : NodeOp → Type 0
KeepsRunning reboot = ⊥
KeepsRunning _ = Unit

-- The node goes from `r` to a later state without a restart, and its term stays below the largest
-- `uint64`, so that counting it up does not wrap.
pub data Run {S : Type 0} (r : RaftNode S) : RaftNode S → Type 0 where
  here : Run r r
  next :
      {r' : RaftNode S} (op : NodeOp)
      → Run r r'
      → KeepsRunning op
      → r'.current_term + 1 < 2 ^ 64
      → Run r (run_op op r')
