-- ===== src/Raft/Heartbeat/Replication.antt =====
-- A heartbeat carries what the follower needs: its fields describe the leader's log, and a follower
-- that agrees with the leader up to the previous entry ends up with the leader's whole log.
use distributed_fault_tolera.Prelude.{
  ℕ, zero, suc, ◌+◌, ◌-◌, ◌≤◌, ◌<◌, ◌^◌, List, [], ◌∷◌, ◌++◌, some, true, ◌≡◌, refl, ap, ◌∙◌, sym,
  arith, if◌then◌else◌, length, take, drop, map, ltb, ℤ, to_int, to_uint, to_uint-to_int, IsInt,
  inl, inr, subst, get_elem?, get_elem?-eq_some, length-drop, take-take-drop, take-append,
  take-append-drop, length-take, ℕ_discrete,
}
use mathlib.Core.Path.{ap₂}
use mathlib.Core.List.{map-append}
use distributed_fault_tolera.Raft.Log.{LogEntry, RaftLog, get, entry_or_zero}
use distributed_fault_tolera.Raft.Log.Numbered.{IsNumbered, IsWellFormed, get-eq-get_elem?}
use distributed_fault_tolera.Raft.Log.Appended.{entries_from-eq-drop, entries_from_lem}
use distributed_fault_tolera.Raft.Node.{RaftNode}
use distributed_fault_tolera.Raft.AppendEntries.{AppendEntriesArgs, append_entries}
use distributed_fault_tolera.Raft.AppendEntries.Handler.{
  previous, Matches, append_entries-success_iff,
}
use distributed_fault_tolera.Raft.AppendEntries.Success.{append_entries-log, append_entries-terms}
use distributed_fault_tolera.Raft.Heartbeat.{index_of, heartbeat_args}

-- What AppendEntries expects of its arguments, and what they say of the leader's log `l`.
pub record Describes (args : AppendEntriesArgs) (p : ℕ) (l : RaftLog) : Type 0 where
  pub prev : previous args.prev_log_index ≡ p
  pub small : IsInt args.prev_log_index
  pub numbered : IsNumbered p args.entries
  pub suffix : args.entries ≡ drop p l.entries
  pub entry : Matches args.prev_log_index args.prev_log_term l

-- The previous index and term of the call, as computed from the next index `n`.
abbrev prev_index : ℕ → ℕ
prev_index n = if ltb 1 n then n - 1 else 0

abbrev prev_term : ℕ → RaftLog → ℕ
prev_term n l = if ltb 1 n then (entry_or_zero (get (prev_index n) l)).term else 0

entry-Matches :
    (n p : ℕ) (l : RaftLog)
    → IsWellFormed l
    → ((e : LogEntry) (i : ℕ) → get_elem? l.entries i ≡ some e → e.term < 2 ^ 64)
    → n ≡ p + 1
    → p ≤ length l.entries
    → Matches (to_int (prev_index n)) (to_int (prev_term n l)) l
entry-Matches n zero l w terms next within = inl (ground arith)
entry-Matches n (suc q) l w terms next within =
    let (e, here) = get_elem?-eq_some l.entries q within in
    let index : prev_index n ≡ q + 1 = ground arith in
    let back : previous (to_int (prev_index n)) - 1 ≡ q = ground (arith, w.fits) in
    let found : get (prev_index n) l ≡ some e =
      ap (λ i. get i l) index ∙ get-eq-get_elem? l q within ∙ here in
    let term : prev_term n l ≡ e.term = ground (arith, found) in
    inr (
      e,
      ap (get_elem? l.entries) back ∙ here,
      sym (to_uint-to_int e.term (terms e q here)) ∙ ap (λ t. to_uint (to_int t)) (sym term),
    )

-- Lists with the same terms up to `p` have entries of one term at each place before it.
terms_at :
    (p i : ℕ) (xs ys : List LogEntry) (y : LogEntry)
    → map (λ e. e.term) (take p xs) ≡ map (λ e. e.term) (take p ys)
    → i < p
    → get_elem? ys i ≡ some y
    → (x : LogEntry) × (get_elem? xs i ≡ some x) × (x.term ≡ y.term)
terms_at zero i xs ys y same h here = elim h [ ]
terms_at (suc p) i xs [] y same h here = cc
terms_at (suc p) i [] (b ∷ ys) y same h here = cc
terms_at (suc p) zero (a ∷ xs) (b ∷ ys) y same h here = (a, refl, cc)
terms_at (suc p) (suc i) (a ∷ xs) (b ∷ ys) y same h here =
    terms_at p i xs ys y (cc) (omega arith) here

length-le_of_terms :
    (p : ℕ) (xs ys : List LogEntry)
    → p ≤ length ys
    → map (λ e. e.term) (take p xs) ≡ map (λ e. e.term) (take p ys)
    → p ≤ length xs
length-le_of_terms zero xs ys h same = omega arith
length-le_of_terms (suc p) xs [] h same = elim h [ ]
length-le_of_terms (suc p) [] (b ∷ ys) h same = cc
length-le_of_terms (suc p) (a ∷ xs) (b ∷ ys) h same =
    omega (arith, length-le_of_terms p xs ys (omega arith) (cc))

Matches-same :
    (index term : ℤ) (p : ℕ) (l m : RaftLog)
    → previous index ≡ p
    → map (λ e. e.term) (take p m.entries) ≡ map (λ e. e.term) (take p l.entries)
    → Matches index term l
    → Matches index term m
Matches-same index term p l m at_p same (inl start) = inl start
Matches-same index term p l m at_p same (inr (e, here, t)) = elim (ℕ_discrete (previous index) 0) [
  | yes start ↦ inl start
  | no later ↦
      let (x, there, u) =
        terms_at p (previous index - 1) m.entries l.entries e same (omega arith) here in
      inr (x, there, u ∙ t)
]

module _ {S : Type 0} where
  -- A heartbeat for a peer whose next index is `p + 1`, at most one past the leader's last entry,
  -- describes the leader's log behind the entry `p`.
  pub heartbeat_args-Describes :
      (peer : ℤ) (r : RaftNode S) (p : ℕ)
      → IsWellFormed r.log
      → ((e : LogEntry) (i : ℕ) → get_elem? r.log.entries i ≡ some e → e.term < 2 ^ 64)
      → index_of peer r.next_index ≡ p + 1
      → p ≤ length r.log.entries
      → Describes (heartbeat_args peer r) p r.log
  unfolding heartbeat_args
  heartbeat_args-Describes peer r p w terms next within = record {
    prev = ground (arith, w.fits);
    small = ground (arith, w.fits);
    numbered = rw next (entries_from_lem r.log p w within).1;
    suffix = rw next (entries_from-eq-drop r.log p);
    entry = entry-Matches (index_of peer r.next_index) p r.log w terms next within;
  }

  -- A follower that has the terms of the log `l` up to its entry `p`, and whose own term is not
  -- newer, accepts a call that describes `l`, and then has the terms of the whole log `l`.
  pub append_entries-replicates :
      (args : AppendEntriesArgs) (r : RaftNode S) (p : ℕ) (l : RaftLog)
      → Describes args p l
      → IsWellFormed r.log
      → r.current_term ≤ args.term
      → p ≤ length l.entries
      → map (λ e. e.term) (take p r.log.entries) ≡ map (λ e. e.term) (take p l.entries)
      → ((append_entries args r).1.success ≡ true)
        × (map (λ e. e.term) (take (length l.entries) (append_entries args r).0.log.entries)
            ≡ map (λ e. e.term) l.entries)
  append_entries-replicates args r p l d w term within same = (accepted, replicated)
    where
      k : IsNumbered (previous args.prev_log_index) args.entries
      k = subst (λ q. IsNumbered q args.entries) (sym d.prev) d.numbered

      accepted : (append_entries args r).1.success ≡ true
      accepted =
          (append_entries-success_iff args r w d.small).1 (
            term,
            Matches-same args.prev_log_index args.prev_log_term p l r.log d.prev same d.entry,
          )

      after : List LogEntry
      after = (append_entries args r).0.log.entries

      head : take p after ≡ take p r.log.entries
      head =
          ap (take p) (rw d.prev at (append_entries-log args r w d.small k accepted))
          ∙ take-append (take p r.log.entries) _ p (
              sym (
                length-take p r.log.entries
                  (length-le_of_terms p r.log.entries l.entries within same)))

      tail :
          map (λ e. e.term) (take (length args.entries) (drop p after))
          ≡ map (λ e. e.term) args.entries
      tail = rw d.prev at (append_entries-terms args r w d.small k accepted)

      sum : p + length args.entries ≡ length l.entries
      sum = omega (arith, ap length d.suffix, length-drop p l.entries)

      replicated : map (λ e. e.term) (take (length l.entries) after) ≡ map (λ e. e.term) l.entries
      replicated =
          ap (λ n. map (λ (e : LogEntry). e.term) (take n after)) (sym sum)
          ∙ ap (map (λ (e : LogEntry). e.term)) (sym (take-take-drop p (length args.entries) after))
          ∙ map-append (λ (e : LogEntry). e.term) (take p after)
              (take (length args.entries) (drop p after))
          ∙ ap₂ ◌++◌ (ap (map (λ (e : LogEntry). e.term)) head ∙ same)
              (tail ∙ ap (map (λ (e : LogEntry). e.term)) d.suffix)
          ∙ sym (map-append (λ (e : LogEntry). e.term) (take p l.entries) (drop p l.entries))
          ∙ ap (map (λ (e : LogEntry). e.term)) (take-append-drop p l.entries)
