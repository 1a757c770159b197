-- ===== src/Raft/AppendEntries/Success.antt =====
-- What a successful AppendEntries leaves in the log, and that no call breaks the node.
use distributed_fault_tolera.Prelude.{
  ℕ, ◌+◌, ◌-◌, ◌≤◌, ◌<◌, ◌^◌, List, ◌++◌, true, ◌≡◌, ap, ◌∙◌, sym, arith, refl, length, take, drop,
  subst, IsInt, ℤ, take-splice, take-append-drop, map, length-append, length-take, length-drop,
  length-take_le, inl, inr, get_elem?-lt, drop-append,
}
use distributed_fault_tolera.Raft.Log.{Command, LogEntry, RaftLog}
use distributed_fault_tolera.Raft.Log.Numbered.{
  IsNumbered, IsWellFormed, IsNumbered-append, IsNumbered-append_left, IsNumbered-append_right,
}
use distributed_fault_tolera.Raft.Node.{RaftNode}
use distributed_fault_tolera.Raft.AppendEntries.{
  AppendEntriesArgs, AppendEntriesReply, accept_leader, follow_commit, append_new_entries,
  store_entries, append_entries,
}
use distributed_fault_tolera.Raft.AppendEntries.Apply.{apply_committed-OnlyApplied}
use distributed_fault_tolera.Raft.AppendEntries.Merge.{
  merge, append_new_entries_lem, merge-IsNumbered, AgreesUpTo, take-merge, length-merge-le,
  length-le-merge, terms-merge,
}
use distributed_fault_tolera.Raft.AppendEntries.Sound.{
  IsSound, accept_leader-KeepsData, IsSound-KeepsData, set_log-IsSound, follow_commit-IsSound,
  apply_committed-IsSound,
}
use distributed_fault_tolera.Raft.AppendEntries.Handler.{
  previous, Matches, append_entries-success_iff, Outcome, stale, mismatch, stored, outcome,
  has_previous_sound,
}

module _ (l : RaftLog) (p : ℕ) (es : List LogEntry) (w : IsWellFormed l) (h : p ≤ length l.entries)
    (k : IsNumbered p es) (room : p + length es < 2 ^ 63) where
  kept : List LogEntry
  kept = take p l.entries

  merged : List LogEntry
  merged = merge (drop p l.entries) es

  new_entries : (append_new_entries l es).entries ≡ kept ++ merged
  unfolding kept merged
  new_entries = append_new_entries_lem l p es h k

  kept-length : length kept ≡ p
  unfolding kept
  kept-length = length-take p l.entries h

  parts-IsNumbered : IsNumbered 0 kept × IsNumbered p (drop p l.entries)
  unfolding kept
  parts-IsNumbered = (
    IsNumbered-append_left 0 kept (drop p l.entries) whole,
    subst (λ n. IsNumbered n (drop p l.entries)) (omega (arith, kept-length))
        (IsNumbered-append_right 0 kept (drop p l.entries) whole),
  )
    where
      whole : IsNumbered 0 (take p l.entries ++ drop p l.entries)
      whole = rw take-append-drop w.numbered

  merged-length : (length merged < 2 ^ 63 - p) × (length es ≤ length merged)
  unfolding merged
  merged-length =
      let old : length (drop p l.entries) ≡ length l.entries - p = length-drop p l.entries in
      (
        omega (
          arith,
          w.fits,
          length-merge-le (drop p l.entries) es (2 ^ 63 - p - 1) (omega (arith, w.fits))
              (omega arith),
        ),
        length-le-merge (drop p l.entries) es,
      )

  -- New entries in a well-formed log make a well-formed log.
  pub append_new_entries-IsWellFormed : IsWellFormed (append_new_entries l es)
  unfolding merged
  append_new_entries-IsWellFormed = record {
    numbered = rw new_entries (
        IsNumbered-append 0 kept merged parts-IsNumbered.0 (
          subst (λ n. IsNumbered n merged) (omega (arith, kept-length))
            (merge-IsNumbered p (drop p l.entries) es parts-IsNumbered.1 k)));
    fits = rw new_entries (omega (arith, length-append kept merged, kept-length, merged-length.0));
  }

  -- Entries that the new ones do not contradict stay, and the log still reaches over them.
  pub append_new_entries-keeps :
      (c : ℕ)
      → c ≤ length l.entries
      → AgreesUpTo (c - p) (drop p l.entries) es
      → (c ≤ length (append_new_entries l es).entries)
        × (take c (append_new_entries l es).entries ≡ take c l.entries)
  unfolding kept merged
  append_new_entries-keeps c inside agrees = (reaches, rw new_entries same)
    where
      same : take c (take p l.entries ++ merge (drop p l.entries) es) ≡ take c l.entries
      same =
          take-splice c p l.entries (merge (drop p l.entries) es) h (
            take-merge (c - p) (drop p l.entries) es (omega (arith, length-drop p l.entries))
              agrees)

      reaches : c ≤ length (append_new_entries l es).entries
      reaches = rw new_entries (
          omega (
            arith,
            length-take_le c (take p l.entries ++ merge (drop p l.entries) es),
            ap length same,
            length-take c l.entries inside,
          ))

Matches-le :
    (index term : ℤ) (l : RaftLog) → Matches index term l → previous index ≤ length l.entries
Matches-le index term l (inl start) = omega (arith, start)
Matches-le index term l (inr (e, here, same)) =
    omega (arith, get_elem?-lt l.entries (previous index - 1) here)

module _ {S : Type 0} where
  follow_commit-log : (c : ℤ) (r : RaftNode S) → (follow_commit c r).log ≡ r.log
  unfolding follow_commit
  follow_commit-log c r = ground arith

  pub log-store_entries :
      (args : AppendEntriesArgs) (r : RaftNode S)
      → (store_entries args r).log ≡ append_new_entries r.log args.entries
  unfolding store_entries
  log-store_entries args r =
      ap (λ x. x.log) (apply_committed-OnlyApplied _).same ∙ follow_commit-log _ _

  -- After a success the log is the old one up to the previous entry, then the new entries merged
  -- into what followed it: nothing else of the log changes, and entries are dropped only behind a
  -- place where the terms differ.
  pub append_entries-log :
      (args : AppendEntriesArgs) (r : RaftNode S)
      → IsWellFormed r.log
      → IsInt args.prev_log_index
      → IsNumbered (previous args.prev_log_index) args.entries
      → (append_entries args r).1.success ≡ true
      → (append_entries args r).0.log.entries
        ≡ take (previous args.prev_log_index) r.log.entries
          ++ merge (drop (previous args.prev_log_index) r.log.entries) args.entries
  append_entries-log args r w small k = go (outcome args r)
    where
      go :
          {out : RaftNode S × AppendEntriesReply}
          → Outcome args r out
          → out.1.success ≡ true
          → out.0.log.entries
            ≡ take (previous args.prev_log_index) r.log.entries
              ++ merge (drop (previous args.prev_log_index) r.log.entries) args.entries
      go (stale old) h = cc
      go (mismatch new missing) h = cc
      go (stored new found) h =
          ap (λ l. l.entries) (log-store_entries args (accept_leader args r))
          ∙ ap (λ l. (append_new_entries l args.entries).entries)
              (accept_leader-KeepsData args r).log
          ∙ append_new_entries_lem r.log (previous args.prev_log_index) args.entries
              (has_previous_sound args.prev_log_index args.prev_log_term r.log w small found).0 k

  -- A success puts the leader's terms into the log, from the previous entry on.
  pub append_entries-terms :
      (args : AppendEntriesArgs) (r : RaftNode S)
      → IsWellFormed r.log
      → IsInt args.prev_log_index
      → IsNumbered (previous args.prev_log_index) args.entries
      → (append_entries args r).1.success ≡ true
      → map
          (λ e. e.term)
          (take
            (length args.entries)
            (drop (previous args.prev_log_index) (append_entries args r).0.log.entries))
        ≡ map (λ e. e.term) args.entries
  append_entries-terms args r w small k h =
      let p = previous args.prev_log_index in
      let here : p ≤ length r.log.entries =
        Matches-le args.prev_log_index args.prev_log_term r.log
          ((append_entries-success_iff args r w small).0 h).1 in
      ap (λ es. map (λ (e : LogEntry). e.term) (take (length args.entries) es))
        (ap (drop p) (append_entries-log args r w small k h)
          ∙ drop-append (take p r.log.entries) (merge (drop p r.log.entries) args.entries) p
              (sym (length-take p r.log.entries here)))
      ∙ terms-merge (drop p r.log.entries) args.entries

  -- Storing entries that do not contradict the committed ones keeps a sound node sound: what was
  -- committed stays, the commit index does not fall, and all that is committed is applied.
  store_entries-IsSound :
      {f : Command → S → S} {s : S} (args : AppendEntriesArgs) (r : RaftNode S) (p : ℕ)
      → IsSound f s r
      → p ≤ length r.log.entries
      → IsNumbered p args.entries
      → p + length args.entries < 2 ^ 63
      → IsInt args.leader_commit
      → AgreesUpTo (r.commit_index - p) (drop p r.log.entries) args.entries
      → IsSound f s (store_entries args r)
        × (r.commit_index ≤ (store_entries args r).commit_index)
        × (take r.commit_index (store_entries args r).log.entries
            ≡ take r.commit_index r.log.entries)
        × ((store_entries args r).last_applied ≡ (store_entries args r).commit_index)
  unfolding store_entries
  store_entries-IsSound args r p v h k room small agrees =
      let (inside, same) =
        append_new_entries-keeps r.log p args.entries v.wf h k room r.commit_index v.inside
          agrees in
      let w = append_new_entries-IsWellFormed r.log p args.entries v.wf h k room in
      let v₁ = set_log-IsSound (append_new_entries r.log args.entries) v w inside same in
      let (v₂, up) = follow_commit-IsSound args.leader_commit v₁ small in
      let (v₃, counted, bound, kept) = apply_committed-IsSound v₂ in
      (
        v₃,
        omega (arith, up, bound),
        ap (λ l. take r.commit_index l.entries) (kept ∙ follow_commit-log args.leader_commit _)
            ∙ same,
        counted ∙ sym bound,
      )

  -- Whatever the call and its outcome: if the new entries follow one another from the previous
  -- entry and do not contradict a committed entry of the node, then a sound node stays sound, its
  -- commit index does not fall, and the entries up to the old commit index stay as they are.
  pub append_entries-IsSound :
      {f : Command → S → S} {s : S} (args : AppendEntriesArgs) (r : RaftNode S)
      → IsSound f s r
      → IsInt args.prev_log_index
      → IsInt args.leader_commit
      → IsNumbered (previous args.prev_log_index) args.entries
      → previous args.prev_log_index + length args.entries < 2 ^ 63
      → AgreesUpTo
          (r.commit_index - previous args.prev_log_index)
          (drop (previous args.prev_log_index) r.log.entries)
          args.entries
      → IsSound f s (append_entries args r).0
        × (r.commit_index ≤ (append_entries args r).0.commit_index)
        × (take r.commit_index (append_entries args r).0.log.entries
            ≡ take r.commit_index r.log.entries)
  append_entries-IsSound {f} {s} args r v small small' k room agrees = go (outcome args r)
    where
      go :
          {out : RaftNode S × AppendEntriesReply}
          → Outcome args r out
          → IsSound f s out.0
            × (r.commit_index ≤ out.0.commit_index)
            × (take r.commit_index out.0.log.entries ≡ take r.commit_index r.log.entries)
      go (stale old) = (v, omega arith, refl)
      go (mismatch new missing) =
          let d = accept_leader-KeepsData args r in
          (
            IsSound-KeepsData v d,
            omega (arith, d.commit_index),
            ap (λ l. take r.commit_index l.entries) d.log,
          )
      go (stored new found) =
          let p = previous args.prev_log_index in
          let r₁ = accept_leader args r in
          let d = accept_leader-KeepsData args r in
          let here =
            (has_previous_sound args.prev_log_index args.prev_log_term r.log v.wf small found).0 in
          let agrees₁ : AgreesUpTo (r₁.commit_index - p) (drop p r₁.log.entries) args.entries =
            subst (λ c. AgreesUpTo (c - p) (drop p r₁.log.entries) args.entries)
              (sym d.commit_index)
              (subst (λ l. AgreesUpTo (r.commit_index - p) (drop p l.entries) args.entries)
                (sym d.log) agrees) in
          let (v₁, up, same, _) =
            store_entries-IsSound args r₁ p (IsSound-KeepsData v d)
              (omega (arith, ap (λ l. length l.entries) d.log, here)) k room small' agrees₁ in
          (
            v₁,
            omega (arith, up, d.commit_index),
            ap (λ c. take c (store_entries args r₁).log.entries) (sym d.commit_index)
                ∙ same
                ∙ ap (λ c. take c r₁.log.entries) d.commit_index
                ∙ ap (λ l. take r.commit_index l.entries) d.log,
          )
