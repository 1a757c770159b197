-- ===== src/Raft/AppendEntries.antt =====
-- kv-store/internal/raft/append_entries.go: the RPC AppendEntries on the node that receives it.
-- `applyCommitted` of node.go is here too, since this handler calls it.
pub mod Merge
pub mod Apply
pub mod Sound
pub mod Handler
pub mod Success
use distributed_fault_tolera.Prelude.{
  ℕ, zero, suc, ◌-◌, List, [], ◌∷◌, ◌++◌, foldl, Option, none, some, Bool, true, false, ◌&&◌, not,
  ℤ, pos, minus_one, eq_ℤ, ltb_ℤ, to_int, to_uint, inc, ltb, ◌==◌, if◌then◌else◌,
}
use distributed_fault_tolera.Events.{
  leader_changed, leader_changed_to, heartbeat_received, heartbeat_received_from, command_applied,
  command_was_applied,
}
use distributed_fault_tolera.Raft.Log.{Command, LogEntry, RaftLog, last_index, get, truncate_from}
use distributed_fault_tolera.Raft.Node.{RaftNode, follower, emit_event, reset_election_timer}

pub record AppendEntriesArgs : Type 0 where
  pub term : ℕ
  pub leader_id : ℤ
  pub prev_log_index : ℤ
  pub prev_log_term : ℤ
  pub entries : List LogEntry
  pub leader_commit : ℤ

pub record AppendEntriesReply : Type 0 where
  pub term : ℕ
  pub success : Bool

-- One round of the loop over `args.Entries`.
unfoldable pub append_entry : RaftLog → LogEntry → RaftLog
append_entry l new_entry = elim (get new_entry.index l) [
  | some existing ↦
      if not (existing.term == new_entry.term)
      then record { entries = (truncate_from new_entry.index l).entries ++ (new_entry ∷ []) }
      else l
  | none ↦ record { entries = l.entries ++ (new_entry ∷ []) }
]

unfoldable pub append_new_entries : RaftLog → List LogEntry → RaftLog
append_new_entries l [] = l
append_new_entries l (e ∷ es) = append_new_entries (append_entry l e) es

-- Whether the previous entry is there, with the term that the leader gives.
unfoldable pub has_previous : ℤ → ℤ → RaftLog → Bool
has_previous index term l =
    if ltb_ℤ (pos 0) index
    then if ltb (last_index l) (to_uint index)
      then false
      else elim (get (to_uint index) l) [ none ↦ false | some entry ↦ entry.term == to_uint term ]
    else true

module _ {S : Type 0} where
  -- The callback, if one is set, gets the command, and an event tells of it.
  pub call_apply_func : Option (Command → S → S) → LogEntry → RaftNode S → RaftNode S
  unfolding emit_event
  call_apply_func none entry r = r
  call_apply_func (some f) entry r =
      emit_event command_applied command_was_applied minus_one r.last_applied
        (record r { machine = f entry.command r.machine })

  -- One round of the loop of `applyCommitted`; `rest` is the loop after it. Where `get` finds
  -- nothing the loop ends, with `lastApplied` already counted up.
  pub apply_found : (RaftNode S → RaftNode S) → Option LogEntry → RaftNode S → RaftNode S
  apply_found rest none r = r
  apply_found rest (some entry) r = rest (call_apply_func r.apply_func entry r)

  pub apply_round : (RaftNode S → RaftNode S) → Bool → RaftNode S → RaftNode S
  apply_round rest false r = r
  apply_round rest true r =
      let next : RaftNode S = record r { last_applied = inc r.last_applied } in
      apply_found rest (get next.last_applied next.log) next

  pub apply_loop : ℕ → RaftNode S → RaftNode S
  apply_loop zero r = r
  apply_loop (suc n) r = apply_round (apply_loop n) (ltb r.last_applied r.commit_index) r

  -- Each round counts `lastApplied` up, so there are no more rounds than indices that are left.
  unfoldable pub apply_committed : RaftNode S → RaftNode S
  unfolding call_apply_func apply_found apply_round apply_loop
  apply_committed r = apply_loop (r.commit_index - r.last_applied) r

  -- `args.LeaderCommit > int(r.commitIndex)`
  unfoldable pub follow_commit : ℤ → RaftNode S → RaftNode S
  follow_commit leader_commit r =
      let last = last_index r.log in
      let commit = to_uint leader_commit in
      if ltb_ℤ (to_int r.commit_index) leader_commit
      then record r { commit_index = if ltb last commit then last else commit }
      else r

  -- The part before the log is looked at: the newer term, the leader, its events and the timer.
  unfoldable pub accept_leader : AppendEntriesArgs → RaftNode S → RaftNode S
  unfolding emit_event reset_election_timer
  accept_leader args r =
      let r₁ : RaftNode S =
        if ltb r.current_term args.term
        then record r { current_term = args.term; voted_for = minus_one }
        else r in
      let r₂ : RaftNode S = record r₁ { state = follower; leader_id = args.leader_id } in
      let r₃ : RaftNode S =
        if not (eq_ℤ r₁.leader_id args.leader_id)
        then emit_event leader_changed (leader_changed_to args.leader_id) args.leader_id 0 r₂
        else r₂ in
      reset_election_timer
        (emit_event heartbeat_received (heartbeat_received_from args.leader_id) args.leader_id 0 r₃)

  -- What follows a match: the loop over the entries, the commit index, and the applying.
  unfoldable pub store_entries : AppendEntriesArgs → RaftNode S → RaftNode S
  store_entries args r =
      apply_committed (
        follow_commit args.leader_commit (record r { log = append_new_entries r.log args.entries }))

  unfoldable pub append_entries : AppendEntriesArgs → RaftNode S → RaftNode S × AppendEntriesReply
  append_entries args r =
      if ltb args.term r.current_term
      then (r, record { term = r.current_term; success = false })
      else let r₁ = accept_leader args r in
        if not (has_previous args.prev_log_index args.prev_log_term r₁.log)
        then (r₁, record { term = r₁.current_term; success = false })
        else (store_entries args r₁, record { term = r₁.current_term; success = true })
