-- ===== src/Store/Recovery.antt =====
-- What a store that is opened on a log file holds.
use distributed_fault_tolera.Prelude.{
  ℕ, if_true, ltb, ◌||◌, ◌⊎◌, ◌<◌, ◌^◌, Bytes, List, [], ◌∷◌, ◌++◌, true, Option, none, some, ◌≡◌,
  ◌∙◌, refl, ap, arith, eq_bytes, eq_bytes_iff, foldl, All, length, take, ◌==◌, if◌then◌else◌,
}
use distributed_fault_tolera.Prelude.Assoc.{lookup, lookup-insert, lookup-delete}
use distributed_fault_tolera.Wal.Codec.{Record, op_put, op_delete, encode}
use distributed_fault_tolera.Wal.Codec.RoundTrip.{Fits}
use distributed_fault_tolera.Wal.Replay.{done}
use distributed_fault_tolera.Wal.Replay.Recovery.{encode_all, replay-torn}
use distributed_fault_tolera.Store.{Data, Store, apply_record, store_of, get_value, new_store}

-- What a key holds after one record, given what it held before.
abbrev pub written : Bytes → Option Bytes → Record → Option Bytes
written key before r =
    if eq_bytes r.key key
    then (if r.op == op_put then some r.value else if r.op == op_delete then none else before)
    else before

apply_record-lookup :
    (key : Bytes) (values : Data) (r : Record)
    → lookup eq_bytes key (apply_record values r) ≡ written key (lookup eq_bytes key values) r
unfolding apply_record
apply_record-lookup key values r = ground (
  arith,
  lookup-insert eq_bytes eq_bytes_iff r.key key r.value values,
  lookup-delete eq_bytes eq_bytes_iff r.key key values,
)

-- A key holds what the records of a list, one after the other, leave of it: the last put, or nothing
-- after a delete.
pub apply_record-foldl :
    (key : Bytes) (values : Data) (rs : List Record)
    → lookup eq_bytes key (foldl apply_record values rs)
      ≡ foldl (written key) (lookup eq_bytes key values) rs
apply_record-foldl key values [] = refl
apply_record-foldl key values (r ∷ rs) =
    apply_record-foldl key (apply_record values r) rs
    ∙ ap (λ o. foldl (written key) o rs) (apply_record-lookup key values r)

-- A log of whole records, of which a crash may have cut the last one short behind its fourth byte:
-- the store opens, its next number is 1, nothing waits, and every key holds what the whole records,
-- in the order of the log, leave of it.
pub new_store-recovers :
    (crc : Bytes → ℕ)
    → ((b : Bytes) → crc b < 2 ^ 32)
    → (rs : List Record) (r : Record) (k : ℕ) → All Fits rs
    → Fits r
    → k < length (encode crc r)
    → (k ≡ 0) ⊎ (4 < k)
    → (s : Store) × (new_store crc
          (record { contents = encode_all crc rs ++ take k (encode crc r); seeks = true })
        ≡ done s)
      × (s.next_apply_seq ≡ 1)
      × (s.pending ≡ [])
      × ((key : Bytes) → get_value key s ≡ foldl (written key) none rs)
unfolding new_store get_value lookup
new_store-recovers crc range rs r k fs f short torn =
    let whole : (k == 0 || ltb 4 k) ≡ true = ground (arith, torn) in
    let read = replay-torn crc range rs r k fs f short in
    (_, ap store_of (read ∙ if_true _ whole), refl, refl, λ key. apply_record-foldl key [] rs)
