-- ===== src/Raft/AppendEntries/Merge.antt =====
-- The loop of AppendEntries over the new entries, against a description that knows no index.
use distributed_fault_tolera.Prelude.{
  ℕ, zero, suc, ◌+◌, ◌≤◌, List, [], ◌∷◌, ◌++◌, true, false, ◌≡◌, refl, ap, ◌∙◌, sym, arith, ◌==◌,
  if◌then◌else◌, Bool-cases, inl, inr, map, length, take, drop, length-append, take-append-drop,
  length-take, take-length, subst,
}
use mathlib.Core.List.{append_assoc, append-nil}
use distributed_fault_tolera.Raft.Log.{LogEntry, RaftLog}
use distributed_fault_tolera.Raft.Log.Numbered.{IsNumbered, get-append_seam, truncate_from_seam}
use distributed_fault_tolera.Raft.AppendEntries.{append_entry, append_new_entries}

-- What follows the previous entry, after new entries came for it: the old entries stand as long as
-- the terms agree, and from the first disagreement on, or past their end, the new ones do.
unfoldable pub merge : List LogEntry → List LogEntry → List LogEntry
merge old [] = old
merge [] (e ∷ es) = e ∷ es
merge (x ∷ old) (e ∷ es) = if x.term == e.term then x ∷ merge old es else e ∷ es

append_entry-keep :
    (pre suf : List LogEntry) (x e : LogEntry)
    → e.index ≡ length pre + 1
    → (x.term == e.term) ≡ true
    → append_entry (record { entries = pre ++ x ∷ suf }) e ≡ record { entries = pre ++ x ∷ suf }
unfolding append_entry
append_entry-keep pre suf x e i same = ground (arith, get-append_seam pre (x ∷ suf) e.index i)

append_entry-replace :
    (pre suf : List LogEntry) (x e : LogEntry)
    → e.index ≡ length pre + 1
    → (x.term == e.term) ≡ false
    → append_entry (record { entries = pre ++ x ∷ suf }) e ≡ record { entries = pre ++ e ∷ [] }
unfolding append_entry
append_entry-replace pre suf x e i differ =
    ground (arith, get-append_seam pre (x ∷ suf) e.index i, truncate_from_seam pre suf x e.index i)

append_entry-extend :
    (pre : List LogEntry) (e : LogEntry)
    → e.index ≡ length pre + 1
    → append_entry (record { entries = pre }) e ≡ record { entries = pre ++ e ∷ [] }
unfolding append_entry
append_entry-extend pre e i = ground (arith, get-append_seam pre [] e.index i, append-nil pre)

abbrev entries_log : List LogEntry → RaftLog
entries_log es = record { entries = es }

next-IsNumbered :
    (pre : List LogEntry) (e : LogEntry) (es : List LogEntry)
    → IsNumbered (length pre + 1) es
    → IsNumbered (length (pre ++ e ∷ [])) es
next-IsNumbered pre e es h =
    subst (λ n. IsNumbered n es) (omega (arith, length-append pre (e ∷ []))) h

-- From a place where nothing follows, the loop puts the new entries behind the log.
append_new_entries-extend :
    (pre es : List LogEntry)
    → IsNumbered (length pre) es
    → append_new_entries (record { entries = pre }) es ≡ record { entries = pre ++ es }
unfolding append_new_entries
append_new_entries-extend pre [] h = rw append-nil
append_new_entries-extend pre (e ∷ es) h =
    ap (λ l. append_new_entries l es) (append_entry-extend pre e h.0)
    ∙ append_new_entries-extend (pre ++ e ∷ []) es (next-IsNumbered pre e es h.1)
    ∙ ap entries_log (append_assoc pre (e ∷ []) es)

-- The loop over entries that are numbered from the end of `pre` keeps `pre` and merges the entries
-- into what follows it.
append_new_entries-merge :
    (pre suf es : List LogEntry)
    → IsNumbered (length pre) es
    → append_new_entries (record { entries = pre ++ suf }) es
      ≡ record { entries = pre ++ merge suf es }
unfolding append_new_entries merge
append_new_entries-merge pre suf [] h = refl
append_new_entries-merge pre [] (e ∷ es) h =
    ap (λ l. append_new_entries (entries_log l) (e ∷ es)) (append-nil pre)
    ∙ append_new_entries-extend pre (e ∷ es) h
append_new_entries-merge pre (x ∷ suf) (e ∷ es) h = elim (Bool-cases (x.term == e.term)) [
  | inl same ↦ rw same (
      ap (λ l. append_new_entries l es) (append_entry-keep pre suf x e h.0 same)
      ∙ ap (λ l. append_new_entries (entries_log l) es) (sym (append_assoc pre (x ∷ []) suf))
      ∙ append_new_entries-merge (pre ++ x ∷ []) suf es (next-IsNumbered pre x es h.1)
      ∙ ap entries_log (append_assoc pre (x ∷ []) (merge suf es)))
  | inr differ ↦ rw differ (
      ap (λ l. append_new_entries l es) (append_entry-replace pre suf x e h.0 differ)
      ∙ append_new_entries-extend (pre ++ e ∷ []) es (next-IsNumbered pre e es h.1)
      ∙ ap entries_log (append_assoc pre (e ∷ []) es))
]

-- Any log, any place in it: the entries up to `prev` stay, and the new entries are merged into the
-- rest. So the handler's test and truncation by index do what `merge` says without an index.
pub append_new_entries_lem :
    (l : RaftLog) (prev : ℕ) (es : List LogEntry)
    → prev ≤ length l.entries
    → IsNumbered prev es
    → (append_new_entries l es).entries ≡ take prev l.entries ++ merge (drop prev l.entries) es
append_new_entries_lem l prev es h k =
    ap (λ xs. (append_new_entries (entries_log xs) es).entries)
      (sym (take-append-drop prev l.entries))
    ∙ ap (λ m. m.entries)
        (append_new_entries-merge (take prev l.entries) (drop prev l.entries) es
          (subst (λ n. IsNumbered n es) (sym (length-take prev l.entries h)) k))

pub merge-IsNumbered :
    (n : ℕ) (old es : List LogEntry)
    → IsNumbered n old
    → IsNumbered n es
    → IsNumbered n (merge old es)
unfolding merge
merge-IsNumbered n old [] h k = h
merge-IsNumbered n [] (e ∷ es) h k = k
merge-IsNumbered n (x ∷ old) (e ∷ es) h k = elim (Bool-cases (x.term == e.term)) [
  | inl same ↦ rw same (h.0, merge-IsNumbered (n + 1) old es h.1 k.1)
  | inr differ ↦ rw differ k
]

-- After the merge the new entries' terms stand behind the previous entry, in their order.
pub terms-merge :
    (old es : List LogEntry)
    → map (λ e. e.term) (take (length es) (merge old es)) ≡ map (λ e. e.term) es
unfolding merge
terms-merge old [] = refl
terms-merge [] (e ∷ es) = ap (λ t. e.term ∷ map (λ e. e.term) t) (take-length es)
terms-merge (x ∷ old) (e ∷ es) = ground (arith, terms-merge old es, take-length es)

pub length-merge-le :
    (old es : List LogEntry) (n : ℕ) → length old ≤ n → length es ≤ n → length (merge old es) ≤ n
unfolding merge
length-merge-le old [] n h k = h
length-merge-le [] (e ∷ es) n h k = k
length-merge-le (x ∷ old) (e ∷ es) zero h k = elim h [ ]
length-merge-le (x ∷ old) (e ∷ es) (suc n) h k = ground (arith, length-merge-le old es n)

pub length-le-merge : (old es : List LogEntry) → length es ≤ length (merge old es)
unfolding merge
length-le-merge old [] = omega arith
length-le-merge [] (e ∷ es) = omega arith
length-le-merge (x ∷ old) (e ∷ es) = ground (arith, length-le-merge old es)

-- The new entries agree with the first `n` old ones, as far as both reach.
abbrev pub AgreesUpTo : ℕ → List LogEntry → List LogEntry → Type 0
AgreesUpTo zero old es = Unit
AgreesUpTo (suc n) (x ∷ old) (e ∷ es) = (x.term ≡ e.term) × AgreesUpTo n old es
AgreesUpTo (suc n) _ _ = Unit

-- Old entries with which the new ones agree stay as they are.
pub take-merge :
    (n : ℕ) (old es : List LogEntry)
    → n ≤ length old
    → AgreesUpTo n old es
    → take n (merge old es) ≡ take n old
unfolding merge
take-merge zero old es h a = refl
take-merge (suc n) [] es h a = elim h [ ]
take-merge (suc n) (x ∷ old) [] h a = refl
take-merge (suc n) (x ∷ old) (e ∷ es) h a = ground (arith, take-merge n old es)
