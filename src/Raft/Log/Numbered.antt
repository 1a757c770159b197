-- ===== src/Raft/Log/Numbered.antt =====
-- Entries that are numbered without gaps, and what the operations of log.go make of such a log.
use distributed_fault_tolera.Prelude.{
  ℕ, zero, suc, ◌+◌, ◌-◌, ◌<◌, ◌^◌, List, [], ◌∷◌, ◌++◌, none, some, ◌≡◌, refl, ap, arith, length,
  get_elem?, length-append, get_elem?-append, take-append, subst, get_elem?-eq_some,
}
use distributed_fault_tolera.Raft.Log.{LogEntry, RaftLog, last_index, get, truncate_from}

-- The entries carry the indices `n + 1`, `n + 2`, and so on.
abbrev pub IsNumbered : ℕ → List LogEntry → Type 0
IsNumbered n [] = Unit
IsNumbered n (e ∷ es) = (e.index ≡ n + 1) × IsNumbered (n + 1) es

-- A log is numbered from 1, and its length leaves room in a `uint64`.
pub record IsWellFormed (l : RaftLog) : Type 0 where
  pub numbered : IsNumbered 0 l.entries
  pub fits : length l.entries < 2 ^ 63

pub IsNumbered-get_elem? :
    (n i : ℕ) (es : List LogEntry) {e : LogEntry}
    → IsNumbered n es
    → get_elem? es i ≡ some e
    → e.index ≡ n + i + 1
IsNumbered-get_elem? n i [] h g = cc
IsNumbered-get_elem? n zero (x ∷ es) h g = ground arith
IsNumbered-get_elem? n (suc i) (x ∷ es) h g = omega (arith, IsNumbered-get_elem? (n + 1) i es h.1 g)

pub IsNumbered-append :
    (n : ℕ) (es fs : List LogEntry)
    → IsNumbered n es
    → IsNumbered (n + length es) fs
    → IsNumbered n (es ++ fs)
IsNumbered-append n [] fs h k = subst (λ m. IsNumbered m fs) (omega arith) k
IsNumbered-append n (x ∷ es) fs h k =
    (h.0, IsNumbered-append (n + 1) es fs h.1 (subst (λ m. IsNumbered m fs) (omega arith) k))

pub IsNumbered-append_left :
    (n : ℕ) (es fs : List LogEntry) → IsNumbered n (es ++ fs) → IsNumbered n es
IsNumbered-append_left n [] fs h = tt
IsNumbered-append_left n (x ∷ es) fs h = (h.0, IsNumbered-append_left (n + 1) es fs h.1)

pub IsNumbered-append_right :
    (n : ℕ) (es fs : List LogEntry) → IsNumbered n (es ++ fs) → IsNumbered (n + length es) fs
IsNumbered-append_right n [] fs h = subst (λ m. IsNumbered m fs) (omega arith) h
IsNumbered-append_right n (x ∷ es) fs h =
    subst (λ m. IsNumbered m fs) (omega arith) (IsNumbered-append_right (n + 1) es fs h.1)

-- The last index of a numbered log is its length.
pub last_index-eq-length : (l : RaftLog) → IsNumbered 0 l.entries → last_index l ≡ length l.entries
unfolding last_index
last_index-eq-length l h = go l.entries h
  where
    go : (es : List LogEntry) → IsNumbered 0 es → last_index (record { entries = es }) ≡ length es
    go [] k = refl
    go (x ∷ xs) k =
        let (e, found) = get_elem?-eq_some (x ∷ xs) (length xs) (omega arith) in
        ground (arith, found, IsNumbered-get_elem? 0 (length xs) (x ∷ xs) k found)

-- Inside the log `get` reads the list.
pub get-eq-get_elem? :
    (l : RaftLog) (i : ℕ) → i < length l.entries → get (i + 1) l ≡ get_elem? l.entries i
unfolding get
get-eq-get_elem? l i h =
    let e : i + 1 - 1 ≡ i = omega arith in ground (arith, ap (get_elem? l.entries) e)

-- Beyond its end the log holds nothing.
pub get-eq_none : (l : RaftLog) (i : ℕ) → length l.entries < i → get i l ≡ none
unfolding get
get-eq_none l i h = ground arith

pub get-append_seam :
    (pre suf : List LogEntry) (i : ℕ)
    → i ≡ length pre + 1
    → get i (record { entries = pre ++ suf }) ≡ get_elem? suf 0
unfolding get
get-append_seam pre [] i e = ground (arith, length-append pre [])
get-append_seam pre (x ∷ suf) i e =
    ground
      (arith, length-append pre (x ∷ suf), get_elem?-append pre (x ∷ suf) 0 (i - 1) (omega arith))

pub truncate_from_seam :
    (pre suf : List LogEntry) (x : LogEntry) (i : ℕ)
    → i ≡ length pre + 1
    → (truncate_from i (record { entries = pre ++ x ∷ suf })).entries ≡ pre
unfolding truncate_from
truncate_from_seam pre suf x i e =
    ground (arith, length-append pre (x ∷ suf), take-append pre (x ∷ suf) (i - 1) (omega arith))
