-- ===== src/Raft/AppendEntries/Handler.antt =====
-- The handler AppendEntries as a whole: when it succeeds, what it leaves alone when it refuses, the
-- log after a success, and the soundness of the node.
use distributed_fault_tolera.Prelude.{
  ℕ, ◌-◌, ◌≤◌, ◌<◌, ◌^◌, ◌%◌, some, Bool, true, false, ◌≡◌, refl, ap, arith, length, subst, ltb,
  to_uint, IsInt, ℤ, pos, negsuc, ◌⊎◌, ◌↔◌, inl, inr, get_elem?, get_elem?-lt, Bool-cases,
}
use distributed_fault_tolera.Raft.Log.{LogEntry, RaftLog, get}
use distributed_fault_tolera.Raft.Log.Numbered.{IsWellFormed, last_index-eq-length}
use distributed_fault_tolera.Raft.Node.{RaftNode}
use distributed_fault_tolera.Raft.AppendEntries.{
  AppendEntriesArgs, AppendEntriesReply, store_entries, accept_leader, has_previous, append_entries,
}
use distributed_fault_tolera.Raft.AppendEntries.Sound.{KeepsData, accept_leader-KeepsData}

-- The index behind which the leader's entries go: nothing is checked of an index that is not
-- positive, and the entries then go to the start of the log.
abbrev pub previous : ℤ → ℕ
previous (pos n) = n
previous (negsuc n) = 0

-- The entry before the new ones is there, with the leader's term.
abbrev pub Matches : ℤ → ℤ → RaftLog → Type 0
Matches index term l =
    (previous index ≡ 0)
    ⊎ ((e : LogEntry) × (get_elem? l.entries (previous index - 1) ≡ some e)
        × (e.term ≡ to_uint term))

pub has_previous_sound :
    (index term : ℤ) (l : RaftLog)
    → IsWellFormed l
    → IsInt index
    → has_previous index term l ≡ true
    → (previous index ≤ length l.entries) × Matches index term l
unfolding has_previous get
has_previous_sound (pos n) term l w small h =
    let e : n % 2 ^ 64 ≡ n = omega arith in
    ground (arith, last_index-eq-length l w.numbered, e, ap (λ i. get_elem? l.entries (i - 1)) e)
has_previous_sound (negsuc n) term l w small h = (omega arith, inl refl)

has_previous_complete :
    (index term : ℤ) (l : RaftLog)
    → IsWellFormed l
    → IsInt index
    → Matches index term l
    → has_previous index term l ≡ true
unfolding has_previous get
has_previous_complete (pos n) term l w small (inl start) = ground arith
has_previous_complete (pos n) term l w small (inr (x, here, same)) =
    let e : n % 2 ^ 64 ≡ n = omega arith in
    ground (
      arith,
      last_index-eq-length l w.numbered,
      get_elem?-lt l.entries (n - 1) here,
      e,
      ap (λ i. get_elem? l.entries (i - 1)) e,
    )
has_previous_complete (negsuc n) term l w small h = refl

module _ {S : Type 0} where
  -- The three ways through the handler.
  pub data Outcome (args : AppendEntriesArgs) (r : RaftNode S)
      : RaftNode S × AppendEntriesReply → Type 0 where
    stale :
        args.term < r.current_term
        → Outcome args r (r, record { term = r.current_term; success = false })
    mismatch :
        r.current_term ≤ args.term
        → has_previous args.prev_log_index args.prev_log_term r.log ≡ false
        → Outcome args r (
          accept_leader args r,
          record { term = (accept_leader args r).current_term; success = false },
        )
    stored :
        r.current_term ≤ args.term
        → has_previous args.prev_log_index args.prev_log_term r.log ≡ true
        → Outcome args r (
          store_entries args (accept_leader args r),
          record { term = (accept_leader args r).current_term; success = true },
        )

  pub outcome : (args : AppendEntriesArgs) (r : RaftNode S) → Outcome args r (append_entries args r)
  unfolding append_entries
  outcome args r = elim (Bool-cases (ltb args.term r.current_term)) [
    | inl older ↦ rw older (stale (ground arith))
    | inr current ↦
        elim (Bool-cases
          (has_previous args.prev_log_index args.prev_log_term (accept_leader args r).log)) [
            | inl found ↦ rw (current, found) (stored (ground arith) (at_start found))
            | inr missing ↦ rw (current, missing) (mismatch (ground arith) (at_start missing))
          ]
  ]
    where
      at_start :
          {b : Bool}
          → has_previous args.prev_log_index args.prev_log_term (accept_leader args r).log ≡ b
          → has_previous args.prev_log_index args.prev_log_term r.log ≡ b
      at_start {b} h =
          subst (λ l. has_previous args.prev_log_index args.prev_log_term l ≡ b)
            (accept_leader-KeepsData args r).log h

  -- AppendEntries succeeds exactly when the leader's term is not older than the node's and the log
  -- has the entry before the new ones.
  pub append_entries-success_iff :
      (args : AppendEntriesArgs) (r : RaftNode S)
      → IsWellFormed r.log
      → IsInt args.prev_log_index
      → ((append_entries args r).1.success ≡ true)
        ↔ ((r.current_term ≤ args.term) × Matches args.prev_log_index args.prev_log_term r.log)
  append_entries-success_iff args r w small = go (outcome args r)
    where
      go :
          {out : RaftNode S × AppendEntriesReply}
          → Outcome args r out
          → (out.1.success ≡ true)
            ↔ ((r.current_term ≤ args.term) × Matches args.prev_log_index args.prev_log_term r.log)
      go (stale old) = (λ h. cc, λ h. absurd (omega arith))
      go (mismatch new missing) = (
        λ h. cc,
        λ h. cc (
          missing,
          has_previous_complete args.prev_log_index args.prev_log_term r.log w small h.1,
        ),
      )
      go (stored new found) = (
        λ h. (
          new,
          (has_previous_sound args.prev_log_index args.prev_log_term r.log w small found).1,
        ),
        λ h. refl,
      )

  -- A refusal changes neither the log nor what is committed or applied.
  pub append_entries-refused :
      (args : AppendEntriesArgs) (r : RaftNode S)
      → (append_entries args r).1.success ≡ false
      → KeepsData r (append_entries args r).0
  append_entries-refused args r h = go (outcome args r) h
    where
      go :
          {out : RaftNode S × AppendEntriesReply}
          → Outcome args r out
          → out.1.success ≡ false
          → KeepsData r out.0
      go (stale old) h = record {
        log = refl;
        commit_index = refl;
        last_applied = refl;
        apply_func = refl;
        machine = refl;
      }
      go (mismatch new missing) h = accept_leader-KeepsData args r
      go (stored new found) h = cc
