-- ===== src/Store/Agreement.antt =====
-- The store on top of the log: what is applied, and what a restart brings back.
use distributed_fault_tolera.Prelude.{foldl}
use distributed_fault_tolera.Prelude.Assoc.{lookup}
use distributed_fault_tolera.Wal.Replay.Recovery.{encode_all}
use distributed_fault_tolera.Prelude.{
  ◌==◌, ℕ, zero, suc, ◌+◌, ◌-◌, ◌≤◌, ◌<◌, ◌^◌, Bytes, List, [], ◌∷◌, Bool, true, false, ◌&&◌,
  Option, none, some, ◌≡◌, refl, ap, sym, ◌∙◌, arith, length, take, get_elem?, get_elem?-eq_some,
  All, ltb, leb,
}
use distributed_fault_tolera.Wal.Codec.{Record}
use distributed_fault_tolera.Wal.Codec.RoundTrip.{Fits}
use distributed_fault_tolera.Wal.Replay.{done}
use distributed_fault_tolera.Wal.Commit.{Wal, open_wal, Run}
use distributed_fault_tolera.Wal.Commit.Parts.{IsBetween}
use distributed_fault_tolera.Wal.Commit.Numbers.{Works}
use distributed_fault_tolera.Wal.Commit.Recovered.{Run-durable}
use distributed_fault_tolera.Store.{Data, Store, apply_record, store_of, new_store}
use distributed_fault_tolera.Store.Order.{
  contains, Bounded, empty_queue, apply_range, receive, receive_lem, receive-blocked,
}

-- The record of a number; a number that is not there stands for any record.
abbrev pub or_zero : Option Record → Record
or_zero (some r) = r
or_zero none = record { op = 0; key = []; value = [] }

abbrev pub record_of : List Record → ℕ → Record
record_of rs n = or_zero (get_elem? rs (n - 1))

foldl-take :
    (k : ℕ) (rs : List Record) (values : Data) {r : Record}
    → get_elem? rs k ≡ some r
    → foldl apply_record values (take (suc k) rs)
      ≡ apply_record (foldl apply_record values (take k rs)) r
foldl-take k [] values e = cc
foldl-take zero (x ∷ rs) values e = cc
foldl-take (suc k) (x ∷ rs) values e = foldl-take k rs (apply_record values x) e

apply_range-take :
    (k : ℕ) (rs : List Record)
    → k ≤ length rs
    → apply_range (record_of rs) 1 k [] ≡ foldl apply_record [] (take k rs)
apply_range-take zero rs h = refl
apply_range-take (suc k) rs h =
    let (r, here) = get_elem?-eq_some rs k (omega arith) in
    let place : 1 + k - 1 ≡ k = omega arith in
    ap (λ v. apply_record v (record_of rs (1 + k))) (apply_range-take k rs (omega arith))
    ∙ ap (λ n. apply_record (foldl apply_record [] (take k rs)) (or_zero (get_elem? rs n))) place
    ∙ ap (λ o. apply_record (foldl apply_record [] (take k rs)) (or_zero o)) here
    ∙ sym (foldl-take k rs [] here)

abbrev pub is_some {ℓ} : {A : Type ℓ} → Option A → Bool
is_some none = false
is_some (some a) = true

-- A log is opened on an empty file, and the disk takes every write and sync. The log's goroutine
-- neither writes nor answers a batch, so all records in the file are answered. The store has been
-- handed, in any order, exactly the records whose `Append` has been answered. Then a store that is
-- opened on the file, as it stands, has the same data.
pub receive-new_store :
    (crc : Bytes → ℕ)
    → ((b : Bytes) → crc b < 2 ^ 32)
    → (rs : List Record) {w : Wal} (arrived : List ℕ) → All Fits rs
    → length rs + 1 < 2 ^ 64
    → Run crc Works (open_wal []) rs w
    → IsBetween w.worker
    → ((q : ℕ) → contains q arrived ≡ is_some (lookup ◌==◌ q w.answers))
    → (s : Store) × (new_store crc (record { contents = w.contents; seeks = true }) ≡ done s)
      × (s.values ≡ (receive (record_of rs) arrived (empty_queue 1 [])).values)
unfolding new_store encode_all
receive-new_store crc range rs {w} arrived fits small run idle handed =
    let (k, j, m, _, _, within, answers, _, file, between) =
      Run-durable crc range [] rs tt fits run in
    let all_answered : m ≡ k = omega (arith, between idle) in
    let inside : k ≤ length rs = omega (arith, within, all_answered) in
    let replayed = file ∙ ap (λ n. done (record { seq = 1; records = take n rs })) all_answered in
    let those : (q : ℕ) → contains q arrived ≡ (ltb 0 q && leb q k) =
      λ q. ground (arith, handed q, answers q) in
    let bounded : Bounded arrived = λ q h. ground (arith, those q, h) in
    let (low, _, stop, values) = receive_lem (record_of rs) 1 [] arrived bounded in
    let most =
      receive-blocked (record_of rs) 1 [] arrived (k + 1) bounded (omega arith)
        (ground (arith, those (k + 1))) in
    let next = (receive (record_of rs) arrived (empty_queue 1 [])).next_apply_seq in
    let count : next - 1 ≡ k = ground (arith, low, most, stop, those next) in
    (
      record { values = foldl apply_record [] (take k rs); next_apply_seq = 1; pending = [] },
      ap store_of replayed,
      sym (
          values
          ∙ ap (λ n. apply_range (record_of rs) 1 n []) count
          ∙ apply_range-take k rs inside),
    )
