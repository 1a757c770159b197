-- ===== src/Raft/Network/Copies.antt =====
-- The calls that a node sends are copies of a part of its log, and a node that gets such a call keeps
-- its log or takes the log that was copied.
use distributed_fault_tolera.Prelude.{
  ℕ, zero, suc, ◌+◌, ◌-◌, ◌≤◌, ◌<◌, ◌^◌, Bytes, List, [], ◌∷◌, ◌++◌, true, some, ◌≡◌, refl, ap, sym,
  ◌∙◌, subst, arith, ℤ, length, take, drop, get_elem?, inl, inr, All, ltb, ◌==◌, ◌||◌, Bool-cases,
  if_elim, eq_ℤ, not,
}
use distributed_fault_tolera.Events.{heartbeat_sent, heartbeat_sent_to}
use distributed_fault_tolera.Raft.Log.{LogEntry, RaftLog, entries_from}
use distributed_fault_tolera.Raft.Log.Numbered.{IsWellFormed}
use distributed_fault_tolera.Raft.Node.{RaftNode, leader, follower, emit_event}
use distributed_fault_tolera.Events.{EventType, Message}
use distributed_fault_tolera.Raft.Election.{eq_state}
use distributed_fault_tolera.Raft.Run.Same.{store_entries-SameFace}
use distributed_fault_tolera.Raft.AppendEntries.{
  AppendEntriesArgs, AppendEntriesReply, append_entries, append_new_entries, accept_leader,
  store_entries, has_previous,
}
use distributed_fault_tolera.Raft.AppendEntries.Merge.{merge, append_new_entries_lem}
use distributed_fault_tolera.Raft.AppendEntries.Sound.{accept_leader-KeepsData}
use distributed_fault_tolera.Raft.AppendEntries.Handler.{
  Outcome, stale, mismatch, stored, outcome, previous, Matches, has_previous_sound,
}
use distributed_fault_tolera.Raft.AppendEntries.Success.{log-store_entries}
use distributed_fault_tolera.Raft.Heartbeat.{
  Heartbeat, index_of, heartbeat_args, send_heartbeats, send_to_peers,
}
use distributed_fault_tolera.Raft.Heartbeat.Replication.{Describes, heartbeat_args-Describes}
use distributed_fault_tolera.Raft.Network.Lineage.{
  Lines, Traces, Traces-same, splice-cases, Extends, Traces-Extends,
}

-- A log as a node can have it.
pub record Sane (lines : Lines) (l : RaftLog) : Type 0 where
  pub wf : IsWellFormed l
  pub terms : (e : LogEntry) (i : ℕ) → get_elem? l.entries i ≡ some e → e.term < 2 ^ 64
  pub traces : Traces lines l.entries

pub record Copied (lines : Lines) (args : AppendEntriesArgs) : Type 0 where
  pub place : ℕ
  pub log : RaftLog
  pub sane : Sane lines log
  pub within : place ≤ length log.entries
  pub describes : Describes args place log

-- The call carries no entries, or those of a log behind a place in it.
pub data IsCopy (lines : Lines) (args : AppendEntriesArgs) : Type 0 where
  bare : args.entries ≡ [] → IsCopy lines args
  copied : Copied lines args → IsCopy lines args

pub Sane-Extends :
    {lines lines' : Lines} {l : RaftLog} → Extends lines lines' → Sane lines l → Sane lines' l
Sane-Extends longer s = record {
  wf = s.wf;
  terms = s.terms;
  traces = Traces-Extends longer s.traces;
}

pub IsCopy-Extends :
    {lines lines' : Lines} {args : AppendEntriesArgs}
    → Extends lines lines'
    → IsCopy lines args
    → IsCopy lines' args
IsCopy-Extends longer (bare e) = bare e
IsCopy-Extends longer (copied c) = copied (record {
  place = c.place;
  log = c.log;
  sane = Sane-Extends longer c.sane;
  within = c.within;
  describes = c.describes;
})

-- Logs with an entry of one term before a place are the same up to the place.
same_front :
    {lines : Lines} (index term : ℤ) (p : ℕ) (l m : RaftLog)
    → Sane lines l
    → Sane lines m
    → previous index ≡ p
    → Matches index term l
    → Matches index term m
    → take p l.entries ≡ take p m.entries
same_front index term zero l m a b at (inl start) _ = refl
same_front index term (suc p) l m a b at (inl start) _ = absurd (omega (arith, at, start))
same_front index term zero l m a b at _ (inl start) = refl
same_front index term (suc p) l m a b at _ (inl start) = absurd (omega (arith, at, start))
same_front index term zero l m a b at (inr _) (inr _) = refl
same_front index term (suc p) l m a b at (inr (x, here, t)) (inr (y, there, u)) =
    let k : previous index - 1 + 1 ≡ suc p = omega (arith, at) in
    subst (λ n. take n l.entries ≡ take n m.entries) k
      (Traces-same (previous index - 1) x y a.traces b.traces here there (t ∙ sym u))

module _ {S : Type 0} where
  -- Whatever its next index says, a node sends a copy of its log.
  heartbeat_args-IsCopy :
      {lines : Lines} (peer : ℤ) (r : RaftNode S)
      → Sane lines r.log
      → IsCopy lines (heartbeat_args peer r)
  unfolding heartbeat_args entries_from
  heartbeat_args-IsCopy peer r s =
      let n = index_of peer r.next_index in
      elim (Bool-cases ((n == 0) || ltb (length r.log.entries) n)) [
        | inl outside ↦ bare (ground (arith, outside))
        | inr inside ↦ copied (record {
          place = n - 1;
          log = r.log;
          sane = s;
          within = ground (arith, inside);
          describes =
              heartbeat_args-Describes peer r (n - 1) s.wf s.terms (ground (arith, inside))
                (ground (arith, inside));
        })
      ]

  log-emit_event :
      (kind : EventType) (message : Message) (peer : ℤ) (index : ℕ) (r : RaftNode S)
      → (emit_event kind message peer index r).log ≡ r.log
  unfolding emit_event
  log-emit_event kind message peer index r = ground arith

  send_to_peers-IsCopy :
      {lines : Lines} (peers : List (ℤ × Bytes)) (r : RaftNode S)
      → Sane lines r.log
      → All (λ (h : Heartbeat). IsCopy lines h.args) (send_to_peers peers r).1
  unfolding send_to_peers
  send_to_peers-IsCopy [] r s = tt
  send_to_peers-IsCopy {lines} ((i, address) ∷ peers) r s =
      let r₁ = emit_event heartbeat_sent (heartbeat_sent_to i) i 0 r in
      if_elim
        (λ (out : RaftNode S × List Heartbeat). All (λ (h : Heartbeat). IsCopy lines h.args) out.1)
        (eq_ℤ i r.id) (λ _. send_to_peers-IsCopy peers r s)
        (λ _. (
          heartbeat_args-IsCopy i r s,
          send_to_peers-IsCopy peers r₁ (
              subst (Sane lines) (sym (log-emit_event heartbeat_sent (heartbeat_sent_to i) i 0 r))
                s),
        ))

  pub send_heartbeats-IsCopy :
      {lines : Lines} (r : RaftNode S)
      → Sane lines r.log
      → All (λ (h : Heartbeat). IsCopy lines h.args) (send_heartbeats r).1
  unfolding send_heartbeats
  send_heartbeats-IsCopy {lines} r s =
      if_elim
        (λ (out : RaftNode S × List Heartbeat). All (λ (h : Heartbeat). IsCopy lines h.args) out.1)
        (not (eq_state r.state leader)) (λ _. tt) (λ _. send_to_peers-IsCopy r.peers r s)

  store_entries-Sane :
      {lines : Lines} (args : AppendEntriesArgs) (r : RaftNode S)
      → Sane lines r.log
      → has_previous args.prev_log_index args.prev_log_term r.log ≡ true
      → IsCopy lines args
      → Sane lines (store_entries args r).log
  unfolding append_new_entries
  store_entries-Sane {lines} args r s found (bare none_new) =
      subst (Sane lines) (sym (log-store_entries args r ∙ ap (append_new_entries r.log) none_new)) s
  store_entries-Sane {lines} args r s found (copied c) =
      let p = c.place in
      let d = c.describes in
      let (within, here) =
        has_previous_sound args.prev_log_index args.prev_log_term r.log s.wf d.small found in
      let front : take p r.log.entries ≡ take p c.log.entries =
        same_front args.prev_log_index args.prev_log_term p r.log c.log s c.sane d.prev here
          d.entry in
      let after : (store_entries args r).log.entries
          ≡ take p r.log.entries ++ merge (drop p r.log.entries) (drop p c.log.entries) =
        ap (λ l. l.entries) (log-store_entries args r)
        ∙ append_new_entries_lem r.log p args.entries (omega (arith, within, d.prev)) d.numbered
        ∙ ap (λ es. take p r.log.entries ++ merge (drop p r.log.entries) es) d.suffix in
      elim (splice-cases p r.log.entries c.log.entries s.traces c.sane.traces front) [
        | inl old ↦ subst (Sane lines) (sym (ap (λ es. record { entries = es }) (after ∙ old))) s
        | inr new ↦
            subst (Sane lines) (sym (ap (λ es. record { entries = es }) (after ∙ new))) c.sane
      ]

  -- A node whose log is sane and that gets a copy of a sane log has a sane log.
  pub append_entries-Sane :
      {lines : Lines} (args : AppendEntriesArgs) (r : RaftNode S)
      → Sane lines r.log
      → IsCopy lines args
      → Sane lines (append_entries args r).0.log
  append_entries-Sane {lines} args r s copy = go (outcome args r)
    where
      start : Sane lines (accept_leader args r).log
      start = subst (Sane lines) (sym (accept_leader-KeepsData args r).log) s

      go : {out : RaftNode S × AppendEntriesReply} → Outcome args r out → Sane lines out.0.log
      go (stale old) = s
      go (mismatch new missing) = start
      go (stored new found) =
          store_entries-Sane args (accept_leader args r) start
            (ap (has_previous args.prev_log_index args.prev_log_term)
                (accept_leader-KeepsData args r).log
              ∙ found)
            copy

  -- A node that is a leader afterwards has not taken the call.
  pub append_entries-leader :
      (args : AppendEntriesArgs) (r : RaftNode S)
      → (append_entries args r).0.state ≡ leader
      → (append_entries args r).0.log ≡ r.log
  append_entries-leader args r = go (outcome args r)
    where
      follows : (accept_leader args r).state ≡ follower
      follows = unfold accept_leader in ground arith

      go :
          {out : RaftNode S × AppendEntriesReply}
          → Outcome args r out
          → out.0.state ≡ leader
          → out.0.log ≡ r.log
      go (stale old) e = refl
      go (mismatch new missing) e = ground (arith, follows, e)
      go (stored new found) e =
          ground (arith, follows, e, (store_entries-SameFace args (accept_leader args r)).state)
