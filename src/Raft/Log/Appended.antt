-- ===== src/Raft/Log/Appended.antt =====
-- What `Append` and `EntriesFrom` do to a well-formed log.
use distributed_fault_tolera.Prelude.{
  ℕ, ◌+◌, ◌-◌, ◌≤◌, ◌<◌, ◌^◌, [], ◌∷◌, ◌++◌, some, ◌≡◌, refl, ap, arith, inc, ◌∙◌, dec_lt,
  drop-eq_nil, length, take, drop, length-append, take-append-drop, length-take, subst,
}
use distributed_fault_tolera.Raft.Log.{Command, RaftLog, last_index, append, get, entries_from}
use distributed_fault_tolera.Raft.Log.Numbered.{
  IsNumbered, IsWellFormed, IsNumbered-append, IsNumbered-append_right, last_index-eq-length,
  get-append_seam,
}

inc-eq : (n : ℕ) → n < 2 ^ 63 → inc n ≡ n + 1
inc-eq n h = omega arith

-- The new entry takes the index after the last one.
pub append-index :
    (l : RaftLog) (t : ℕ) (c : Command)
    → IsWellFormed l
    → (append t c l).1.index ≡ length l.entries + 1
unfolding append
append-index l t c w =
    omega (arith, ap inc (last_index-eq-length l w.numbered), inc-eq (length l.entries) w.fits)

pub append-IsWellFormed :
    (l : RaftLog) (t : ℕ) (c : Command)
    → IsWellFormed l
    → length l.entries + 1 < 2 ^ 63
    → IsWellFormed (append t c l).0
unfolding append
append-IsWellFormed l t c w room = record {
  numbered =
      IsNumbered-append 0 l.entries _ w.numbered
        (unfold append in append-index l t c w ∙ omega arith, tt);
  fits = omega (arith, length-append l.entries ((append t c l).1 ∷ []));
}

-- The log grows by the entry that is returned, which can be read at its index; all other entries
-- stay, and the last index is that of the entry.
pub append_lem :
    (l : RaftLog) (t : ℕ) (c : Command)
    → IsWellFormed l
    → length l.entries + 1 < 2 ^ 63
    → ((append t c l).0.entries ≡ l.entries ++ (append t c l).1 ∷ [])
      × (get (append t c l).1.index (append t c l).0 ≡ some (append t c l).1)
      × (last_index (append t c l).0 ≡ last_index l + 1)
append_lem l t c w room = (
  unfold append in refl,
  unfold append in
      get-append_seam l.entries ((append t c l).1 ∷ []) _ (unfold append in append-index l t c w),
  omega (
    arith,
    append_length,
    last_index-eq-length l w.numbered,
    last_index-eq-length (append t c l).0 (append-IsWellFormed l t c w room).numbered,
  ),
)
  where
    append_length : length (append t c l).0.entries ≡ length l.entries + 1
    append_length = unfold append in omega (arith, length-append l.entries ((append t c l).1 ∷ []))

pub entries_from-eq-drop : (l : RaftLog) (i : ℕ) → entries_from (i + 1) l ≡ drop i l.entries
unfolding entries_from
entries_from-eq-drop l i = elim (dec_lt i (length l.entries)) [
  | yes inside ↦ ground (arith, ap (λ k. drop k l.entries) back)
  | no beyond ↦ ground (arith, drop-eq_nil l.entries i (omega arith))
]
  where
    back : i + 1 - 1 ≡ i
    back = omega arith

-- What `EntriesFrom` leaves out and what it returns make up the log, and the entries that it
-- returns are numbered from its argument.
pub entries_from_lem :
    (l : RaftLog) (i : ℕ)
    → IsWellFormed l
    → i ≤ length l.entries
    → (take i l.entries ++ entries_from (i + 1) l ≡ l.entries)
      × IsNumbered i (entries_from (i + 1) l)
entries_from_lem l i w h = rw entries_from-eq-drop (split, numbered)
  where
    split : take i l.entries ++ drop i l.entries ≡ l.entries
    split = take-append-drop i l.entries

    numbered : IsNumbered i (drop i l.entries)
    numbered =
        subst (λ n. IsNumbered n (drop i l.entries)) (omega (arith, length-take i l.entries h))
          (IsNumbered-append_right 0 (take i l.entries) (drop i l.entries) (rw split w.numbered))
