-- ===== src/Raft/Network/Writes.antt =====
-- A leader puts a client's command behind its log, which is the line of its term.
use distributed_fault_tolera.Prelude.{
  ℕ, zero, suc, ◌+◌, ◌<◌, ◌^◌, List, [], ◌∷◌, ◌++◌, true, false, some, ◌≡◌, refl, ap, sym, ◌∙◌,
  subst, arith, Bool-cases, inl, inr, get_elem?, length,
}
use distributed_fault_tolera.Raft.Log.{Command, LogEntry, RaftLog, append}
use distributed_fault_tolera.Raft.Log.Appended.{append_lem, append-IsWellFormed}
use distributed_fault_tolera.Raft.Node.{RaftNode, leader}
use distributed_fault_tolera.Raft.Election.{eq_state}
use distributed_fault_tolera.Raft.Election.Quorum.{eq_state_iff}
use distributed_fault_tolera.Raft.Lifecycle.{start}
use distributed_fault_tolera.Raft.Run.{client_start, run_op}
use distributed_fault_tolera.Raft.Run.Same.{start-SameFace}
use distributed_fault_tolera.Raft.Cluster.{System}
use distributed_fault_tolera.Raft.Cluster.Steps.{Inv}
use distributed_fault_tolera.Raft.Network.{Network, handling}
use distributed_fault_tolera.Raft.Network.Lineage.{Lines, Extends, Traces, Traces-append}
use distributed_fault_tolera.Raft.Network.Copies.{Sane, Sane-Extends}
use distributed_fault_tolera.Raft.Network.History.{
  Later, Elected-Later, crowned, crowned-here, crowned-Extends,
}
use distributed_fault_tolera.Raft.Network.Kept.{terms-set_at, quiet_step}
use distributed_fault_tolera.Raft.Network.Calls.{HasHistory}
use distributed_fault_tolera.Raft.Network.Crowned.{crown_step}

-- A leader's log with the entry of a command.
append-Sane :
    {lines lines' : Lines} (i t : ℕ) (command : Command) (l : RaftLog)
    → Sane lines l
    → Extends lines lines'
    → length l.entries + 1 < 2 ^ 63
    → t < 2 ^ 64
    → lines' t ≡ some (i, (append t command l).0.entries)
    → Sane lines' (append t command l).0
append-Sane {lines' = lines'} i t command l s longer room small mine =
    let e = (append t command l).1 in
    let whole = (append_lem l t command s.wf room).0 in
    let term : e.term ≡ t = unfold append in refl in
    record {
      wf = append-IsWellFormed l t command s.wf room;
      terms = λ x k there.
          last_or_before l.entries e k x (ap (λ es. get_elem? es k) (sym whole) ∙ there) s.terms
            (omega (arith, term, small));
      traces = subst (Traces lines') (sym whole) (
          Traces-append i l.entries e (Sane-Extends longer s).traces
            (ap lines' term ∙ mine ∙ ap (λ es. some (i, es)) whole));
    }
  where
    last_or_before :
        (es : List LogEntry) (e : LogEntry) (k : ℕ) (x : LogEntry)
        → get_elem? (es ++ (e ∷ [])) k ≡ some x
        → ((y : LogEntry) (j : ℕ) → get_elem? es j ≡ some y → y.term < 2 ^ 64)
        → e.term < 2 ^ 64
        → x.term < 2 ^ 64
    last_or_before [] e zero x there all last = ground (arith, there, last)
    last_or_before [] e (suc k) x there all last = cc
    last_or_before (y ∷ es) e zero x there all last = all x 0 there
    last_or_before (y ∷ es) e (suc k) x there all last =
        last_or_before es e k x there (λ z j h. all z (suc j) h) last

module _ {S : Type 0} where
  log-start :
      (command : Command) (r : RaftNode S)
      → eq_state r.state leader ≡ true
      → (start command r).0.log ≡ (append r.current_term command r.log).0
  unfolding start
  log-start command r leads = ground (arith, leads)

  log-start_refused :
      (command : Command) (r : RaftNode S)
      → eq_state r.state leader ≡ false
      → (start command r).0.log ≡ r.log
  unfolding start
  log-start_refused command r follows = ground (arith, follows)

  pub write-History :
      (n i : ℕ) (command : Command) {s : Network S}
      → i < n
      → length (s.system.nodes i).log.entries + 1 < 2 ^ 63
      → (s.system.nodes i).current_term < 2 ^ 64
      → Inv n (handling i (client_start command) s.system)
      → HasHistory n s
      → HasHistory n (record s { system = handling i (client_start command) s.system })
  unfolding run_op
  write-History n i command {s} below room small inv' (lines, h) =
      elim (Bool-cases (eq_state r.state leader)) [
        | inr other_state ↦ (
          lines,
          quiet_step n lines i (client_start command) s tt (log-start_refused command r other_state)
              h,
        )
        | inl leading ↦ leads leading
      ]
    where
      r : RaftNode S
      r = s.system.nodes i

      t : ℕ
      t = r.current_term

      r' : RaftNode S
      r' = (start command r).0

      s' : System S
      s' = handling i (client_start command) s.system

      leads : eq_state r.state leader ≡ true → HasHistory n (record s { system = s' })
      leads leading =
          let same = start-SameFace command r in
          let state : r.state ≡ leader = (eq_state_iff r.state leader).0 leading in
          let log = log-start command r leading in
          let line : lines t ≡ some (i, r.log.entries) = (h.nodes i).leads below state in
          let whole : r'.log.entries ≡ r.log.entries ++ ((append t command r.log).1 ∷ []) =
            ap (λ l. l.entries) log ∙ (append_lem r.log t command (h.nodes i).log.wf room).0 in
          let grown : (k : ℕ) (ys : List LogEntry)
              → lines t ≡ some (k, ys)
              → (more : List LogEntry) × (i ≡ k) × (r'.log.entries ≡ ys ++ more) =
            λ k ys led. (
              (append t command r.log).1 ∷ [],
              ground (arith, line, led),
              ground (arith, line, led, whole),
            ) in
          let new = crowned lines t i r'.log.entries grown in
          let longer = crowned-Extends lines t i r'.log.entries grown in
          let had = h.elected t i r.log.entries line in
          let later : Later s.system s' = record {
            grows = λ j t c e. e;
            terms = terms-set_at i r' s.system.nodes (omega (arith, same.term));
          } in
          (
            new,
            crown_step n lines t i r' s s' grown refl h later (Elected-Later later had)
                (same.state ∙ state) same.term
                (subst (Sane new) (sym log) (
                  append-Sane i t command r.log (h.nodes i).log longer room small (
                    crowned-here lines t i r'.log.entries grown
                    ∙ ap (λ l. some (i, l.entries)) log))),
          )
