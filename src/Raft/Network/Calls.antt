-- ===== src/Raft/Network/Calls.antt =====
-- Elections, and the entry calls that nodes send and get, in a cluster and its leaders' logs.
use distributed_fault_tolera.Prelude.{
  All, zero, suc, [], ◌∷◌, List, ℕ, ◌++◌, none, some, ◌≡◌, ap, sym, ◌∙◌, arith, All-append,
  All-get_elem?, get_elem?,
}
use distributed_fault_tolera.Raft.AppendEntries.{AppendEntriesReply}
use distributed_fault_tolera.Raft.Heartbeat.{Heartbeat, send_heartbeats}
use distributed_fault_tolera.Raft.Run.{
  NodeOp, get_append_reply, get_entries, heartbeat, client_start, shut_down, get_vote_request,
  get_vote_reply, reboot, run_op,
}
use distributed_fault_tolera.Raft.Cluster.{
  System, Step, time_out, late_time_out, request, lose_request, lose_reply, count, other,
}
use distributed_fault_tolera.Raft.Cluster.Quiet.{run_op-Quiet}
use distributed_fault_tolera.Raft.Cluster.Steps.{Inv, Step-Inv}
use distributed_fault_tolera.Raft.Network.{Network, handling, KeepsLogs, marshalling, remove_elem}
use distributed_fault_tolera.Raft.Network.Lineage.{Lines}
use distributed_fault_tolera.Raft.Network.Logs.{log-append_reply, log-stop, log-send_heartbeats}
use distributed_fault_tolera.Raft.Network.Copies.{
  IsCopy, send_heartbeats-IsCopy, append_entries-Sane, append_entries-leader,
}
use distributed_fault_tolera.Raft.Network.History.{History}
use distributed_fault_tolera.Raft.Cluster.Starting.{
  start_election-Started, election_timeout-Started,
}
use distributed_fault_tolera.Raft.Network.Kept.{
  terms-set_at, Placed-set_at, same_lines, quiet_step, time_out-History, requesting-History,
}
use distributed_fault_tolera.Raft.Network.Crowned.{counting-History}

All-remove_elem :
    (P : Heartbeat → Type 0) (n : ℕ) (xs : List Heartbeat) → All P xs → All P (remove_elem n xs)
All-remove_elem P n [] all = tt
All-remove_elem P zero (x ∷ xs) (p, all) = all
All-remove_elem P (suc n) (x ∷ xs) (p, all) = (p, All-remove_elem P n xs all)

module _ {S : Type 0} (n : ℕ) where
  -- The lines of leaders that fit the state.
  abbrev pub HasHistory : Network S → Type 0
  HasHistory s = (lines : Lines) × History n lines s

  pub elect-History :
      {s : Network S} {s' : System S} (step : Step n s.system s')
      → KeepsLogs step
      → Inv n s.system
      → HasHistory s
      → HasHistory (record s { system = s' })
  unfolding run_op
  elect-History {s} (time_out i {r} {c} {peers} below small started) k inv (lines, h) = (
    lines,
    time_out-History n lines s i r c peers small
        (election_timeout-Started (s.system.nodes i) r c peers started) inv h,
  )
  elect-History {s} (late_time_out i below small) k inv (lines, h) = (
    lines,
    time_out-History n lines s i _ _ _ small (start_election-Started (s.system.nodes i)) inv h,
  )
  elect-History {s} (request i t j below before) k inv (lines, h) =
      (lines, requesting-History n lines s i t j _ inv h)
  elect-History {s} (lose_reply i t j below before) k inv (lines, h) =
      (lines, requesting-History n lines s i t j none inv h)
  elect-History {s} (lose_request i t j before) k inv (lines, h) =
      (lines, same_lines _ h (record { grows = λ j t c e. e; terms = λ i. omega arith }) h.nodes)
  elect-History {s} (count i t j {reply} below before) k inv (lines, h) =
      counting-History n lines s i t j reply inv (Step-Inv n (count i t j below before) inv) h
  elect-History {s} (other i shut_down _) k inv (lines, h) =
      (lines, quiet_step n lines i shut_down s tt (log-stop (s.system.nodes i)) h)
  elect-History (other i (get_entries _) _) k inv h = absurd k
  elect-History (other i (get_append_reply _ _ _) _) k inv h = absurd k
  elect-History (other i heartbeat _) k inv h = absurd k
  elect-History (other i (client_start _) _) k inv h = absurd k
  elect-History (other i (get_vote_request _) k) _ inv h = absurd k
  elect-History (other i distributed_fault_tolera.Raft.Run.time_out k) _ inv h = absurd k
  elect-History (other i distributed_fault_tolera.Raft.Run.late_time_out k) _ inv h = absurd k
  elect-History (other i (get_vote_reply _ _ _) k) _ inv h = absurd k
  elect-History (other i reboot k) _ inv h = absurd k

  pub replicate-History :
      (i : ℕ) {s : Network S}
      → HasHistory s
      → HasHistory (record s {
        system = handling i heartbeat s.system;
        started = s.started ++ (send_heartbeats (s.system.nodes i)).1;
      })
  unfolding run_op
  replicate-History i {s} (lines, h) =
      let r = s.system.nodes i in
      let moved = quiet_step n lines i heartbeat s tt (log-send_heartbeats r) h in
      (
        lines,
        record {
          elected = moved.elected;
          nodes = moved.nodes;
          started =
              All-append (λ (m : Heartbeat). IsCopy lines m.args) s.started (send_heartbeats r).1
                h.started (send_heartbeats-IsCopy r (h.nodes i).log);
          sent = h.sent;
        },
      )

  pub marshal-History :
      (q : ℕ) {h : Heartbeat} {s : Network S}
      → get_elem? s.started q ≡ some h
      → HasHistory s
      → HasHistory (marshalling q h s)
  marshal-History q {h} {s} there (lines, history) =
      let P : Heartbeat → Type 0 = λ m. IsCopy lines m.args in
      let this = All-get_elem? P s.started q history.started there in
      (
        lines,
        record {
          elected = history.elected;
          nodes = history.nodes;
          started = All-remove_elem P q s.started history.started;
          sent = All-append P s.sent (h ∷ []) history.sent (this, tt);
        },
      )

  pub deliver-History :
      (j q : ℕ) {h : Heartbeat} {s : Network S}
      → get_elem? s.sent q ≡ some h
      → HasHistory s
      → HasHistory (record s { system = handling j (get_entries h.args) s.system })
  unfolding run_op
  deliver-History j q {h} {s} there (lines, history) =
      let r = s.system.nodes j in
      let p = history.nodes j in
      let quiet = run_op-Quiet (get_entries h.args) r tt in
      (
        lines,
        same_lines _ history
            (record {
              grows = λ j t c e. e;
              terms = terms-set_at j _ s.system.nodes quiet.keeps.term;
            })
            (Placed-set_at j _ s.system.nodes history.nodes (record {
              stands = λ e xs led.
                  let (was, same) = quiet.stands e in p.stands was xs (ap lines (sym same) ∙ led);
              leads = λ below e.
                  let (was, same) = quiet.leads e in
                  ap lines same
                  ∙ p.leads below was
                  ∙ ap (λ l. some (j, l.entries)) (sym (append_entries-leader h.args r e));
              log = append_entries-Sane h.args r p.log (
                  All-get_elem? (λ (m : Heartbeat). IsCopy lines m.args) s.sent q history.sent
                    there);
            })),
      )

  pub reply-History :
      (i : ℕ) (h : Heartbeat) (answer : AppendEntriesReply) {s : Network S}
      → HasHistory s
      → HasHistory
          (record s { system = handling i (get_append_reply h.peer h.args (some answer)) s.system })
  unfolding run_op
  reply-History i h answer {s} (lines, history) = (
    lines,
    quiet_step n lines i (get_append_reply h.peer h.args (some answer)) s tt
        (log-append_reply h.peer h.args (some answer) (s.system.nodes i)) history,
  )

  pub answers-History :
      (answers : List (Heartbeat × AppendEntriesReply)) {s : Network S}
      → HasHistory s
      → HasHistory (record s { answers = answers })
  answers-History answers (lines, h) =
      (lines, record { elected = h.elected; nodes = h.nodes; started = h.started; sent = h.sent })
