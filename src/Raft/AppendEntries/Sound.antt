-- ===== src/Raft/AppendEntries/Sound.antt =====
-- A node whose state machine has run exactly the applied prefix of its log, and that the parts of
-- the handler keep it so.
use distributed_fault_tolera.Prelude.{
  ℕ, ◌-◌, ◌≤◌, some, ◌≡◌, ap, ◌∙◌, sym, arith, length, take, drop, subst, IsInt, ℤ, pos, negsuc,
  take-take, take-take-drop,
}
use distributed_fault_tolera.Raft.Log.{Command, RaftLog}
use distributed_fault_tolera.Raft.Log.Numbered.{IsWellFormed, last_index-eq-length}
use distributed_fault_tolera.Raft.Node.{RaftNode}
use distributed_fault_tolera.Raft.AppendEntries.{
  AppendEntriesArgs, accept_leader, apply_committed, follow_commit,
}
use distributed_fault_tolera.Raft.AppendEntries.Apply.{
  run_entries, run_entries-append, apply_committed-OnlyApplied, apply_committed_lem,
}

module _ {S : Type 0} where
  -- The callback is `f`, and from `s` the applied entries lead to the state machine of the node.
  pub record IsSound (f : Command → S → S) (s : S) (r : RaftNode S) : Type 0 where
    pub wf : IsWellFormed r.log
    pub order : r.last_applied ≤ r.commit_index
    pub inside : r.commit_index ≤ length r.log.entries
    pub isset : r.apply_func ≡ some f
    pub replayed : r.machine ≡ run_entries f s (take r.last_applied r.log.entries)

  -- A step that leaves the log and all that is applied as it is.
  pub record KeepsData (r r' : RaftNode S) : Type 0 where
    pub log : r'.log ≡ r.log
    pub commit_index : r'.commit_index ≡ r.commit_index
    pub last_applied : r'.last_applied ≡ r.last_applied
    pub apply_func : r'.apply_func ≡ r.apply_func
    pub machine : r'.machine ≡ r.machine

  pub accept_leader-KeepsData :
      (args : AppendEntriesArgs) (r : RaftNode S) → KeepsData r (accept_leader args r)
  unfolding accept_leader
  accept_leader-KeepsData args r = ground arith

module _ {S : Type 0} {f : Command → S → S} {s : S} where
  pub IsSound-KeepsData : {r r' : RaftNode S} → IsSound f s r → KeepsData r r' → IsSound f s r'
  IsSound-KeepsData {r} {r'} v k = record {
    wf = subst IsWellFormed (sym k.log) v.wf;
    order = omega (arith, k.commit_index, k.last_applied);
    inside = omega (arith, k.commit_index, ap (λ l. length l.entries) k.log, v.inside);
    isset = k.apply_func ∙ v.isset;
    replayed =
        k.machine
        ∙ v.replayed
        ∙ sym (ap (λ n. run_entries f s (take n r.log.entries)) k.last_applied)
        ∙ sym (ap (λ l. run_entries f s (take r'.last_applied l.entries)) k.log);
  }

  -- A new log in which the committed entries are the old ones.
  pub set_log-IsSound :
      {r : RaftNode S} (l : RaftLog)
      → IsSound f s r
      → IsWellFormed l
      → r.commit_index ≤ length l.entries
      → take r.commit_index l.entries ≡ take r.commit_index r.log.entries
      → IsSound f s (record r { log = l })
  set_log-IsSound {r} l v w inside same = record {
    wf = w;
    order = v.order;
    inside = inside;
    isset = v.isset;
    replayed =
        v.replayed
        ∙ ap (run_entries f s) (
            sym (take-take r.last_applied r.commit_index r.log.entries v.order)
            ∙ ap (take r.last_applied) (sym same)
            ∙ take-take r.last_applied r.commit_index l.entries v.order);
  }

  pub follow_commit-IsSound :
      {r : RaftNode S} (commit : ℤ)
      → IsSound f s r
      → IsInt commit
      → IsSound f s (follow_commit commit r)
        × (r.commit_index ≤ (follow_commit commit r).commit_index)
  unfolding follow_commit
  follow_commit-IsSound {r} (pos n) v h = ground (arith, last_index-eq-length r.log v.wf.numbered)
  follow_commit-IsSound {r} (negsuc n) v h =
      ground (arith, last_index-eq-length r.log v.wf.numbered)

  pub apply_committed-IsSound :
      {r : RaftNode S}
      → IsSound f s r
      → IsSound f s (apply_committed r)
        × ((apply_committed r).last_applied ≡ r.commit_index)
        × ((apply_committed r).commit_index ≡ r.commit_index)
        × ((apply_committed r).log ≡ r.log)
  apply_committed-IsSound {r} v =
      let only = apply_committed-OnlyApplied r in
      let kept : (apply_committed r).log ≡ r.log = ap (λ x. x.log) only.same in
      let bound : (apply_committed r).commit_index ≡ r.commit_index =
        ap (λ x. x.commit_index) only.same in
      let (counted, ran) = apply_committed_lem f r v.isset v.order v.inside v.wf.fits in
      (
        record {
          wf = subst IsWellFormed (sym kept) v.wf;
          order = omega (arith, counted, bound);
          inside = omega (arith, bound, ap (λ l. length l.entries) kept, v.inside);
          isset = ap (λ x. x.apply_func) only.same ∙ v.isset;
          replayed =
              ran
              ∙ ap (λ m. run_entries f m (take gap (drop r.last_applied r.log.entries))) v.replayed
              ∙ sym (run_entries-append f s (take r.last_applied r.log.entries) _)
              ∙ ap (run_entries f s) (take-take-drop r.last_applied gap r.log.entries)
              ∙ ap (λ n. run_entries f s (take n r.log.entries)) (omega (arith, counted, v.order))
              ∙ ap (λ l. run_entries f s (take (apply_committed r).last_applied l.entries))
                  (sym kept);
        },
        counted,
        bound,
        kept,
      )
    where
      gap : ℕ
      gap = r.commit_index - r.last_applied
