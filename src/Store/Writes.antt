-- ===== src/Store/Writes.antt =====
-- A write with no other writes at the same time.
use distributed_fault_tolera.Prelude.{
  ℕ, Bytes, true, false, none, some, ◌≡◌, ◌∙◌, refl, ap, arith, inc, ◌↔◌, eq_bytes, eq_bytes_iff,
  ==_iff, if◌then◌else◌,
}
use distributed_fault_tolera.Prelude.Assoc.{lookup, insert, delete, lookup-insert, lookup-delete}
use distributed_fault_tolera.Wal.Codec.{Record}
use distributed_fault_tolera.Store.{
  Data, seq, append_failed, apply_record, apply_next, apply_loop, apply_ordered, get_value, set,
  existed, delete_key, put_of, delete_of,
}
use distributed_fault_tolera.Store.Order.{empty_queue}

pub apply_ordered-next :
    (n : ℕ) (r : Record) (values : Data)
    → apply_ordered n r (empty_queue n values) ≡ empty_queue (inc n) (apply_record values r)
unfolding apply_ordered apply_loop apply_next lookup insert delete
apply_ordered-next n r values = ground (arith, (==_iff n n).1 refl)

-- With no write waiting, and with the number that the store expects next, `Set` reports no error and
-- sets its key and no other; `Delete` reports whether the key was there, and takes away its key and
-- no other. Where `Append` fails both report an error, and the store is unchanged.
pub write_lem :
    (n : ℕ) (values : Data) (key value other : Bytes)
    → let s = empty_queue n values in
      let after_set = set key value (seq n) s in
      let after_delete = delete_key key (existed key s) (seq n) s in
      (after_set.1 ≡ true)
      × (get_value other after_set.0
          ≡ (if eq_bytes key other then some value else get_value other s))
      × ((after_delete.1 ≡ false) ↔ (get_value key s ≡ none))
      × (after_delete.2 ≡ true)
      × (get_value other after_delete.0 ≡ (if eq_bytes key other then none else get_value other s))
      × (set key value append_failed s ≡ (s, false))
      × (delete_key key (existed key s) append_failed s ≡ (s, false, false))
unfolding set delete_key get_value existed apply_record
write_lem n values key value other =
    let put = apply_ordered-next n (put_of key value) values in
    let gone = apply_ordered-next n (delete_of key) values in
    (
      refl,
      ap (λ s. lookup eq_bytes other s.values) put
          ∙ lookup-insert eq_bytes eq_bytes_iff key other value values,
      ground arith,
      refl,
      ap (λ s. lookup eq_bytes other s.values) gone
          ∙ lookup-delete eq_bytes eq_bytes_iff key other values,
      refl,
      refl,
    )
