-- ===== src/Store/Order.antt =====
-- Writes take effect in the order of their numbers, whatever the order of their arrival.
use distributed_fault_tolera.Prelude.{
  inc, ℕ, zero, suc, ◌+◌, ◌-◌, ◌≤◌, ◌<◌, ◌^◌, List, [], ◌∷◌, Bool, true, false, ◌||◌, Option, none,
  some, ◌≡◌, refl, ap, sym, ◌∙◌, arith, ◌==◌, ==_iff, if◌then◌else◌, length, subst, dec_lt,
}
use distributed_fault_tolera.Prelude.Assoc.{
  lookup, lookup-insert, lookup-delete, length-delete, lookup-empty,
}
use distributed_fault_tolera.Wal.Codec.{Record}
use distributed_fault_tolera.Store.{
  Data, Store, apply_record, apply_next, apply_loop, apply_ordered,
}

abbrev pub contains : ℕ → List ℕ → Bool
contains q [] = false
contains q (x ∷ xs) = x == q || contains q xs

-- `n` records of the log, from the number `first` on, take effect one after the other.
abbrev pub apply_range : (ℕ → Record) → ℕ → ℕ → Data → Data
apply_range log first zero values = values
apply_range log first (suc n) values =
    apply_record (apply_range log first n values) (log (first + n))

-- `applyOrdered` for the records of these numbers; the first of the list is the last to arrive.
unfoldable pub receive : (ℕ → Record) → List ℕ → Store → Store
receive log [] s = s
receive log (q ∷ earlier) s = apply_ordered q (log q) (receive log earlier s)

-- The numbers are below the largest `uint64`, so that counting up does not wrap.
abbrev pub Bounded : List ℕ → Type 0
Bounded arrived = (q : ℕ) → contains q arrived ≡ true → q + 1 < 2 ^ 64

-- A store in which no record waits.
abbrev pub empty_queue : ℕ → Data → Store
empty_queue first values = record { values = values; next_apply_seq = first; pending = [] }

module _ (log : ℕ → Record) (first : ℕ) (values : Data) where
  -- Between two rounds: what has arrived took effect as far as it is without a gap, or is waiting.
  record Between (arrived : List ℕ) (s : Store) : Type 0 where
    pub low : first ≤ s.next_apply_seq
    pub seen : (q : ℕ) → first ≤ q → q < s.next_apply_seq → contains q arrived ≡ true
    pub held :
        (q : ℕ)
        → s.next_apply_seq ≤ q
        → lookup ◌==◌ q s.pending ≡ (if contains q arrived then some (log q) else none)
    pub applied : s.values ≡ apply_range log first (s.next_apply_seq - first) values

  round-Between :
      (arrived : List ℕ) (s : Store) (r : Record)
      → Bounded arrived
      → Between arrived s
      → lookup ◌==◌ s.next_apply_seq s.pending ≡ some r
      → Between arrived (apply_next (λ x. x) (some r) s)
  unfolding apply_next
  round-Between arrived s r bound b found =
      let q = s.next_apply_seq in
      let here : contains q arrived ≡ true = ground (arith, b.held q (omega arith), found) in
      let same : r ≡ log q = ground (arith, b.held q (omega arith), found, here) in
      let small = bound q here in
      let up : inc s.next_apply_seq ≡ s.next_apply_seq + 1 = omega (arith, small) in
      let k = s.next_apply_seq - first in
      let at : s.next_apply_seq ≡ first + k = omega (arith, b.low) in
      let length_up : suc k ≡ inc s.next_apply_seq - first = omega (arith, up, at) in
      record {
        low = omega (arith, b.low, small);
        seen = λ p from below. elim (dec_lt p q) [
          | yes before ↦ b.seen p from before
          | no last ↦
              subst (λ x. contains x arrived ≡ true) (omega (arith, below, last, small)) here
        ];
        held = λ p from. ground (arith, up, lookup-delete ◌==◌ ==_iff q p s.pending, b.held p);
        applied =
            ap (λ v. apply_record v r) b.applied
            ∙ ap (apply_record (apply_range log first k values)) (same ∙ ap log at)
            ∙ ap (λ n. apply_range log first n values) length_up;
      }

  -- The loop has ended because the next record is not there.
  abbrev Ended : List ℕ → Store → Type 0
  Ended arrived s = Between arrived s × (lookup ◌==◌ s.next_apply_seq s.pending ≡ none)

  next-Ended :
      (n : ℕ) (arrived : List ℕ) (s : Store) (o : Option Record)
      → ((s' : Store)
          → Between arrived s'
          → length s'.pending ≤ n
          → Ended arrived (apply_loop n s'))
      → Bounded arrived
      → Between arrived s
      → length s.pending ≤ suc n
      → lookup ◌==◌ s.next_apply_seq s.pending ≡ o
      → Ended arrived (apply_next (apply_loop n) o s)
  unfolding apply_next
  next-Ended n arrived s none rest bound b few e = (b, e)
  next-Ended n arrived s (some r) rest bound b few e =
      rest _ (round-Between arrived s r bound b e)
        (omega (arith, few, length-delete ◌==◌ s.next_apply_seq s.pending e))

  -- A round for each waiting record is enough.
  loop-Ended :
      (n : ℕ) (arrived : List ℕ) (s : Store)
      → Bounded arrived
      → Between arrived s
      → length s.pending ≤ n
      → Ended arrived (apply_loop n s)
  unfolding apply_loop
  loop-Ended zero arrived s bound b few = (b, lookup-empty ◌==◌ s.next_apply_seq s.pending few)
  loop-Ended (suc n) arrived s bound b few =
      next-Ended n arrived s _ (λ s' b' few'. loop-Ended n arrived s' bound b' few') bound b few
        refl

  apply_ordered-Ended :
      (q : ℕ) (arrived : List ℕ) (s : Store)
      → Bounded (q ∷ arrived)
      → Between arrived s
      → Ended (q ∷ arrived) (apply_ordered q (log q) s)
  unfolding apply_ordered
  apply_ordered-Ended q arrived s bound b =
      loop-Ended _ (q ∷ arrived) _ bound
        (record {
          low = b.low;
          seen = λ p from below. ground (arith, b.seen p);
          held = λ p from.
              ground (arith, lookup-insert ◌==◌ ==_iff q p (log q) s.pending, b.held p, ==_iff q p);
          applied = b.applied;
        })
        (omega arith)

  receive-Ended :
      (arrived : List ℕ)
      → Bounded arrived
      → Ended arrived (receive log arrived (empty_queue first values))
  unfolding receive lookup
  receive-Ended [] bound =
      let none_yet : 0 ≡ first - first = omega arith in
      (
        record {
          low = omega arith;
          seen = λ q from below. absurd (omega (arith, from, below));
          held = λ q from. refl;
          applied = ap (λ n. apply_range log first n values) none_yet;
        },
        refl,
      )
  receive-Ended (q ∷ earlier) bound =
      apply_ordered-Ended q earlier _ bound
        (receive-Ended earlier (λ p e. bound p (ground (arith, e)))).0

-- The store starts with no record waiting, and calls of `applyOrdered` arrive in any order, more
-- than once for a number too. The store's next number is then the first one that has not arrived,
-- and its data are those after the records before that number, one after the other in the order of
-- their numbers.
pub receive_lem :
    (log : ℕ → Record) (first : ℕ) (values : Data) (arrived : List ℕ)
    → Bounded arrived
    → let s = receive log arrived (empty_queue first values) in
      (first ≤ s.next_apply_seq)
      × ((q : ℕ) → first ≤ q → q < s.next_apply_seq → contains q arrived ≡ true)
      × (contains s.next_apply_seq arrived ≡ false)
      × (s.values ≡ apply_range log first (s.next_apply_seq - first) values)
receive_lem log first values arrived bound =
    let (b, ended) = receive-Ended log first values arrived bound in
    let here =
      b.held (receive log arrived (empty_queue first values)).next_apply_seq (omega arith) in
    (b.low, b.seen, ground (arith, here, ended), b.applied)

-- A number that is never handed to `applyOrdered` stops the store there: whatever arrives, the
-- store never gets past it.
pub receive-blocked :
    (log : ℕ → Record) (first : ℕ) (values : Data) (arrived : List ℕ) (q : ℕ)
    → Bounded arrived
    → first ≤ q
    → contains q arrived ≡ false
    → (receive log arrived (empty_queue first values)).next_apply_seq ≤ q
receive-blocked log first values arrived q bound from missing =
    let (low, seen, _, _) = receive_lem log first values arrived bound in
    elim (dec_lt q (receive log arrived (empty_queue first values)).next_apply_seq) [
      | yes past ↦ absurd (ground (arith, seen q from past, missing))
      | no not_past ↦ omega (arith, not_past)
    ]

-- Two orders of arrival of the same numbers leave the same data and the same next number.
pub receive-any_order :
    (log : ℕ → Record) (first : ℕ) (values : Data) (a b : List ℕ)
    → Bounded a
    → Bounded b
    → ((q : ℕ) → contains q a ≡ contains q b)
    → let s = receive log a (empty_queue first values) in
      let s' = receive log b (empty_queue first values) in
      (s.next_apply_seq ≡ s'.next_apply_seq) × (s.values ≡ s'.values)
receive-any_order log first values a b bound_a bound_b same =
    let (low, _, stop, is) = receive_lem log first values a bound_a in
    let (low', _, stop', is') = receive_lem log first values b bound_b in
    let before = receive-blocked log first values b _ bound_b low (sym (same _) ∙ stop) in
    let after = receive-blocked log first values a _ bound_a low' (same _ ∙ stop') in
    let s = receive log a (empty_queue first values) in
    let s' = receive log b (empty_queue first values) in
    let level : s.next_apply_seq ≡ s'.next_apply_seq = omega (arith, before, after) in
    (level, is ∙ ap (λ n. apply_range log first (n - first) values) level ∙ sym is')
