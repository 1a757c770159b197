-- ===== src/Raft/AppendEntries/Apply.antt =====
-- `applyCommitted`: the loop catches up with the commit index and feeds the callback in log order.
use distributed_fault_tolera.Prelude.{
  ℕ, zero, suc, ◌+◌, ◌-◌, ◌≤◌, ◌<◌, ◌^◌, List, [], ◌∷◌, ◌++◌, none, some, Bool, true, false, ◌≡◌,
  refl, ap, ◌∙◌, sym, arith, get_elem?-eq_some, get_elem?-drop, length, take, drop, ltb, lt→ltb,
  Option, inc,
}
use distributed_fault_tolera.Events.{Event}
use distributed_fault_tolera.Raft.Log.{Command, LogEntry, get}
use distributed_fault_tolera.Raft.Log.Numbered.{get-eq-get_elem?}
use distributed_fault_tolera.Raft.Node.{RaftNode}
use distributed_fault_tolera.Raft.AppendEntries.{
  call_apply_func, apply_found, apply_round, apply_loop, apply_committed,
}

module _ {S : Type 0} where
  -- The commands of the entries, one after the other, on the state machine.
  unfoldable pub run_entries : (Command → S → S) → S → List LogEntry → S
  run_entries f s [] = s
  run_entries f s (e ∷ es) = run_entries f (f e.command s) es

  pub run_entries-append :
      (f : Command → S → S) (s : S) (es fs : List LogEntry)
      → run_entries f s (es ++ fs) ≡ run_entries f (run_entries f s es) fs
  unfolding run_entries
  run_entries-append f s [] fs = refl
  run_entries-append f s (e ∷ es) fs = run_entries-append f (f e.command s) es fs

  -- `r'` differs from `r` at most in the state machine, the count of applied entries and the events.
  pub record OnlyApplied (r r' : RaftNode S) : Type 0 where
    pub machine : S
    pub last_applied : ℕ
    pub event_bus : Option (List Event)
    pub same :
        r' ≡ record r { machine = machine; last_applied = last_applied; event_bus = event_bus }

  OnlyApplied-refl : (r : RaftNode S) → OnlyApplied r r
  OnlyApplied-refl r = record {
    machine = r.machine;
    last_applied = r.last_applied;
    event_bus = r.event_bus;
    same = refl;
  }

  OnlyApplied-trans :
      {r r' r'' : RaftNode S} → OnlyApplied r r' → OnlyApplied r' r'' → OnlyApplied r r''
  OnlyApplied-trans {r} {r'} {r''} a b = record {
    machine = b.machine;
    last_applied = b.last_applied;
    event_bus = b.event_bus;
    same = b.same ∙ ap set a.same;
  }
    where
      set : RaftNode S → RaftNode S
      set x = record x {
        machine = b.machine;
        last_applied = b.last_applied;
        event_bus = b.event_bus;
      }

  call_apply_func-OnlyApplied :
      (o : Option (Command → S → S)) (e : LogEntry) (r : RaftNode S)
      → OnlyApplied r (call_apply_func o e r)
  unfolding call_apply_func
  call_apply_func-OnlyApplied none e r = OnlyApplied-refl r
  call_apply_func-OnlyApplied (some f) e r = record {
    machine = _;
    last_applied = _;
    event_bus = _;
    same = refl;
  }

  module _ (rest : RaftNode S → RaftNode S) (only : (r : RaftNode S) → OnlyApplied r (rest r)) where
    apply_found-OnlyApplied :
        (o : Option LogEntry) (r : RaftNode S) → OnlyApplied r (apply_found rest o r)
    unfolding apply_found
    apply_found-OnlyApplied none r = OnlyApplied-refl r
    apply_found-OnlyApplied (some e) r =
        OnlyApplied-trans (call_apply_func-OnlyApplied r.apply_func e r) (only _)

    apply_round-OnlyApplied : (b : Bool) (r : RaftNode S) → OnlyApplied r (apply_round rest b r)
    unfolding apply_round
    apply_round-OnlyApplied false r = OnlyApplied-refl r
    apply_round-OnlyApplied true r =
        OnlyApplied-trans (record { machine = _; last_applied = _; event_bus = _; same = refl })
          (apply_found-OnlyApplied _ (record r { last_applied = inc r.last_applied }))

  apply_loop-OnlyApplied : (n : ℕ) (r : RaftNode S) → OnlyApplied r (apply_loop n r)
  unfolding apply_loop
  apply_loop-OnlyApplied zero r = OnlyApplied-refl r
  apply_loop-OnlyApplied (suc n) r =
      apply_round-OnlyApplied (apply_loop n) (apply_loop-OnlyApplied n) _ r

  pub apply_committed-OnlyApplied : (r : RaftNode S) → OnlyApplied r (apply_committed r)
  unfolding apply_committed
  apply_committed-OnlyApplied r = apply_loop-OnlyApplied (r.commit_index - r.last_applied) r

  apply_round-found :
      (rest : RaftNode S → RaftNode S) (f : Command → S → S) (e : LogEntry) (r : RaftNode S)
      → r.apply_func ≡ some f
      → r.last_applied < r.commit_index
      → get (inc r.last_applied) r.log ≡ some e
      → apply_round rest (ltb r.last_applied r.commit_index) r
        ≡ rest (call_apply_func (some f) e (record r { last_applied = inc r.last_applied }))
  unfolding apply_round apply_found
  apply_round-found rest f e r isset below found =
      ap (λ b. apply_round rest b r) (lt→ltb r.last_applied r.commit_index below)
      ∙ ap (λ o. apply_found rest o next) found
      ∙ ap (λ g. rest (call_apply_func g e next)) isset
    where
      next : RaftNode S
      next = record r { last_applied = inc r.last_applied }

  -- Within the log the loop runs to the commit index, and the callback gets the commands of the
  -- entries in between, in log order.
  apply_loop_lem :
      (f : Command → S → S) (n : ℕ) (r : RaftNode S)
      → r.apply_func ≡ some f
      → r.last_applied + n ≡ r.commit_index
      → r.commit_index ≤ length r.log.entries
      → length r.log.entries < 2 ^ 63
      → ((apply_loop n r).last_applied ≡ r.commit_index)
        × ((apply_loop n r).machine
            ≡ run_entries f r.machine (take n (drop r.last_applied r.log.entries)))
  unfolding apply_loop run_entries call_apply_func
  apply_loop_lem f zero r isset sum inside fits = (omega arith, refl)
  apply_loop_lem f (suc n) r isset sum inside fits =
      let (e, here) = get_elem?-eq_some r.log.entries r.last_applied (omega arith) in
      let next : RaftNode S =
        call_apply_func (some f) e (record r { last_applied = inc r.last_applied }) in
      let up : inc r.last_applied ≡ suc r.last_applied = omega arith in
      let found : get (inc r.last_applied) r.log ≡ some e =
        ap (λ i. get i r.log) (omega arith)
        ∙ get-eq-get_elem? r.log r.last_applied (omega arith)
        ∙ here in
      let step = apply_round-found (apply_loop n) f e r isset (omega arith) found in
      let (counted, ran) = apply_loop_lem f n next isset (omega arith) inside fits in
      (
        ap (λ x. x.last_applied) step ∙ counted,
        ap (λ x. x.machine) step
            ∙ ran
            ∙ ap (λ i. run_entries f (f e.command r.machine) (take n (drop i r.log.entries))) up
            ∙ ap (λ es. run_entries f r.machine (take (suc n) es))
                (sym (get_elem?-drop r.log.entries r.last_applied here)),
      )

  -- `applyCommitted` applies every committed entry of the log that is not applied yet, in log
  -- order, each once, and counts `lastApplied` up to the commit index.
  pub apply_committed_lem :
      (f : Command → S → S) (r : RaftNode S)
      → r.apply_func ≡ some f
      → r.last_applied ≤ r.commit_index
      → r.commit_index ≤ length r.log.entries
      → length r.log.entries < 2 ^ 63
      → ((apply_committed r).last_applied ≡ r.commit_index)
        × ((apply_committed r).machine
            ≡ run_entries f r.machine
                (take (r.commit_index - r.last_applied) (drop r.last_applied r.log.entries)))
  unfolding apply_committed
  apply_committed_lem f r isset order inside fits =
      apply_loop_lem f (r.commit_index - r.last_applied) r isset (omega arith) inside fits
