-- ===== src/Wal/Commit/Recovered.antt =====
-- What a replay returns of the records that were appended.
use mathlib.Core.List.{append-nil, append_assoc}
use distributed_fault_tolera.Prelude.{
  ◌⊎◌, inl, inr, subst, ℕ, ◌+◌, ◌≤◌, ◌<◌, ◌^◌, Bytes, List, [], ◌∷◌, ◌++◌, true, ◌&&◌, none, some,
  ◌≡◌, ap, sym, ◌∙◌, arith, length, length-append, take, take-append, All, All-append, ltb, leb,
  ◌==◌, if◌then◌else◌,
}
use distributed_fault_tolera.Prelude.Assoc.{lookup}
use distributed_fault_tolera.Wal.Codec.{Record}
use distributed_fault_tolera.Wal.Codec.RoundTrip.{Fits}
use distributed_fault_tolera.Wal.Replay.{done, replay}
use distributed_fault_tolera.Wal.Replay.Recovery.{encode_all, length-encode, replay-torn}
use distributed_fault_tolera.Wal.Commit.{durable, Wal, open_wal, Run, PendingWrite}
use distributed_fault_tolera.Wal.Commit.Numbers.{
  number, number-Split, length-number, answer_all, Works, encode_all-append, encode_items,
  encode_items-number,
}
use distributed_fault_tolera.Wal.Commit.Durable.{Run-IsSound}
use distributed_fault_tolera.Wal.Commit.Parts.{
  in_file, in_synced, in_sending, IsBetween, IsHung, unanswered, parts-ordered, parts-between,
  parts-first, hung-first,
}

All-front : (xs ys : List Record) → All Fits (xs ++ ys) → All Fits xs
All-front [] ys f = tt
All-front (x ∷ xs) ys (f, fs) = (f, All-front xs ys fs)

lookup-answer_all :
    (n k : ℕ) (rs : List Record)
    → lookup ◌==◌ n (answer_all durable (number k rs))
      ≡ (if ltb k n && leb n (k + length rs) then some durable else none)
unfolding lookup answer_all number
lookup-answer_all n k [] = ground arith
lookup-answer_all n k (r ∷ rs) = ground (arith, lookup-answer_all n (k + 1) rs)

zero_plus : (k : ℕ) → 0 + k ≡ k
zero_plus k = omega arith

module _ (crc : Bytes → ℕ) (crc_range : (b : Bytes) → crc b < 2 ^ 32) where
  pub replay-whole :
      (rs : List Record)
      → All Fits rs
      → replay crc (record { contents = encode_all crc rs; seeks = true })
        ≡ done (record { seq = 1; records = rs })
  replay-whole rs f =
      ap (λ c. replay crc (record { contents = c; seeks = true }))
        (sym (append-nil (encode_all crc rs)))
      ∙ replay-torn crc crc_range rs small 0 f small-Fits (omega (arith, length-encode crc small))
    where
      small : Record
      small = record { op = 0; key = []; value = [] }

      small-Fits : Fits small
      small-Fits = omega arith

  -- The records that were answered, and behind them those of some requests that wait.
  stored_part :
      (old rs front rest : List Record) (part others : List PendingWrite) (contents : Bytes)
      → All Fits old
      → All Fits rs
      → rs ≡ front ++ rest
      → part ++ others ≡ number (length front) rest
      → contents ≡ (encode_all crc old ++ encode_all crc front) ++ encode_items crc part
      → let m = length front + length part in
        (m ≤ length rs)
        × (replay crc (record { contents = contents; seeks = true })
            ≡ done (record { seq = 1; records = old ++ take m rs }))
  stored_part old rs front rest part others contents fits_old fits all e held =
      let k = length front in
      let sp = number-Split k rest part others e in
      let inside = front ++ sp.front in
      let whole : rs ≡ inside ++ sp.back =
        all ∙ ap (λ xs. front ++ xs) sp.whole ∙ sym (append_assoc front sp.front sp.back) in
      let count : k + length part ≡ length inside =
        omega (arith, ap length sp.first, length-number k sp.front, length-append front sp.front) in
      let first : take (k + length part) rs ≡ inside =
        ap (take (k + length part)) whole ∙ take-append inside sp.back (k + length part) count in
      let bytes : contents ≡ encode_all crc (old ++ inside) =
        held
        ∙ ap (λ b. (encode_all crc old ++ encode_all crc front) ++ encode_items crc b) sp.first
        ∙ ap (λ b. (encode_all crc old ++ encode_all crc front) ++ b)
            (encode_items-number crc k sp.front)
        ∙ append_assoc (encode_all crc old) (encode_all crc front) (encode_all crc sp.front)
        ∙ ap (λ b. encode_all crc old ++ b) (sym (encode_all-append crc front sp.front))
        ∙ sym (encode_all-append crc old inside) in
      let inside_fit = All-front inside sp.back (subst (All Fits) whole fits) in
      (
        omega (arith, count, ap length whole, length-append inside sp.back),
        ap (λ c. replay crc (record { contents = c; seeks = true })) bytes
            ∙ replay-whole (old ++ inside) (All-append Fits old inside fits_old inside_fit)
            ∙ ap (λ xs. done (record { seq = 1; records = old ++ xs })) (sym first),
      )

  first_parts :
      (w : Wal) {all : List PendingWrite}
      → IsHung w ⊎ (unanswered w ≡ all)
      → ((others : List PendingWrite) × (in_synced w.worker ++ others ≡ all))
        × ((others : List PendingWrite) × (in_file w.worker ++ others ≡ all))
  first_parts w {all} (inl h) = hung-first w.worker all h.1
  first_parts w {all} (inr e) = parts-first w.worker (w.queue ++ in_sending w.sending) all e

  -- A log is opened on a file of whole records, the disk takes every write and sync, and calls of
  -- `Append` and `Close` and the goroutine's steps come in any order. Then, at any moment, the
  -- records numbered 1 to some `k` have been answered, each with success, and no other. A replay of
  -- the part of the file that is synced returns the old records and the first `j` ones, and a replay
  -- of the file the old records and the first `m` ones, in the order of their numbers, where `k` is
  -- at most `j` and `j` at most `m`. While the goroutine neither writes nor answers a batch, the
  -- three are the same.
  pub Run-durable :
      (old rs : List Record) {w : Wal}
      → All Fits old
      → All Fits rs
      → Run crc Works (open_wal (encode_all crc old)) rs w
      → (k j m : ℕ) × (k ≤ j)
        × (j ≤ m)
        × (m ≤ length rs)
        × ((n : ℕ) → lookup ◌==◌ n w.answers ≡ (if ltb 0 n && leb n k then some durable else none))
        × (replay crc (record { contents = w.synced; seeks = true })
            ≡ done (record { seq = 1; records = old ++ take j rs }))
        × (replay crc (record { contents = w.contents; seeks = true })
            ≡ done (record { seq = 1; records = old ++ take m rs }))
        × (IsBetween w.worker → (k ≡ j) × (j ≡ m))
  Run-durable old rs {w} fits_old fits run =
      let s = Run-IsSound crc (encode_all crc old) run in
      let k = length s.front in
      let order = parts-ordered w.worker in
      let ((others_synced, at_synced), (others_file, at_file)) = first_parts w s.waits in
      let (_, synced) =
        stored_part old rs s.front s.rest (in_synced w.worker) others_synced w.synced fits_old fits
          s.all at_synced s.safe in
      let (most, file) =
        stored_part old rs s.front s.rest (in_file w.worker) others_file w.contents fits_old fits
          s.all at_file s.held in
      (
        k,
        k + length (in_synced w.worker),
        k + length (in_file w.worker),
        omega arith,
        omega (arith, order),
        most,
        λ n.
            ap (lookup ◌==◌ n) s.answered
            ∙ lookup-answer_all n 0 s.front
            ∙ ap (λ m. if ltb 0 n && leb n m then some durable else none) (zero_plus k),
        synced,
        file,
        λ idle. (
          omega (arith, parts-between w.worker idle),
          omega (arith, parts-between w.worker idle),
        ),
      )
