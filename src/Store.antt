-- ===== src/Store.antt =====
-- kv-store/internal/store/store.go: the data, and the writes that wait for their turn.
-- A write is in two parts, before and after `wal.Append`: other writes may come in between. What
-- `Append` returned is an argument of the second part.
pub mod Order
pub mod Recovery
pub mod Writes
pub mod Agreement
mod Examples
use distributed_fault_tolera.Prelude.{
  ℕ, zero, suc, Bytes, List, [], Bool, true, false, Option, none, some, foldl, eq_bytes, inc, ◌==◌,
  if◌then◌else◌, length,
}
use distributed_fault_tolera.Prelude.Assoc.{lookup, insert, delete}
use distributed_fault_tolera.Wal.Codec.{Record, op_put, op_delete}
use distributed_fault_tolera.Wal.Replay.{
  LogFile, Replayed, ReplayRecord, done, failed, stuck, replay,
}

abbrev pub Data : Type 0
Data = List (Bytes × Bytes)

-- The source's `data` is the field `values`.
pub record Store : Type 0 where
  pub values : Data
  pub next_apply_seq : ℕ
  pub pending : List (ℕ × Record)

-- The switch on the record's operation; a byte that is neither changes nothing.
unfoldable pub apply_record : Data → Record → Data
apply_record values r =
    if r.op == op_put
    then insert eq_bytes r.key r.value values
    else if r.op == op_delete
    then delete eq_bytes r.key values
    else values

pub store_of : Replayed ReplayRecord → Replayed Store
store_of (done replayed) = done (record {
  values = foldl apply_record [] replayed.records;
  next_apply_seq = replayed.seq;
  pending = [];
})
store_of (failed e) = failed e
store_of stuck = stuck

unfoldable pub new_store : (Bytes → ℕ) → LogFile → Replayed Store
unfolding store_of
new_store crc file = store_of (replay crc file)

unfoldable pub get_value : Bytes → Store → Option Bytes
get_value key s = lookup eq_bytes key s.values

-- One round of the loop of `applyOrdered`: the record of the next number, and the loop after it.
pub apply_next : (Store → Store) → Option Record → Store → Store
apply_next rest none s = s
apply_next rest (some r) s = rest (record {
  values = apply_record s.values r;
  next_apply_seq = inc s.next_apply_seq;
  pending = delete ◌==◌ s.next_apply_seq s.pending;
})

pub apply_loop : ℕ → Store → Store
apply_loop zero s = s
apply_loop (suc n) s = apply_next (apply_loop n) (lookup ◌==◌ s.next_apply_seq s.pending) s

-- Each round takes a record out of `pending`, so there are no more rounds than records.
unfoldable pub apply_ordered : ℕ → Record → Store → Store
unfolding apply_next apply_loop
apply_ordered seq r s =
    let waiting = insert ◌==◌ seq r s.pending in
    apply_loop (length waiting) (record s { pending = waiting })

-- `Apply`, which goes past the log.
unfoldable pub apply : Record → Store → Store
apply r s = record s { values = apply_record s.values r }

-- What `wal.Append` returned: the number of the record, or an error.
pub data Appended : Type 0 where
  seq : ℕ → Appended
  append_failed : Appended

abbrev pub put_of : Bytes → Bytes → Record
put_of key value = record { op = op_put; key = key; value = value }

abbrev pub delete_of : Bytes → Record
delete_of key = record { op = op_delete; key = key; value = [] }

-- `Set` from the return of `Append` on; the Boolean says that there was no error.
unfoldable pub set : Bytes → Bytes → Appended → Store → Store × Bool
set key value (seq n) s = (apply_ordered n (put_of key value) s, true)
set key value append_failed s = (s, false)

-- `ApplyPut` from the return of `Append` on.
unfoldable pub apply_put : Bytes → Bytes → Appended → Store → Store × Bool
apply_put key value (seq n) s = (apply_ordered n (put_of key value) s, true)
apply_put key value append_failed s = (s, false)

-- The part of `Delete` before `Append`: whether the key is there.
unfoldable pub existed : Bytes → Store → Bool
unfolding get_value
existed key s = elim (get_value key s) [ none ↦ false | some value ↦ true ]

-- `Delete` from the return of `Append` on, with what was read before: `existed`, and no error.
unfoldable pub delete_key : Bytes → Bool → Appended → Store → Store × Bool × Bool
delete_key key was_there (seq n) s = (apply_ordered n (delete_of key) s, was_there, true)
delete_key key was_there append_failed s = (s, false, false)

-- `ApplyDelete` from the return of `Append` on.
unfoldable pub apply_delete : Bytes → Appended → Store → Store × Bool
apply_delete key (seq n) s = (apply_ordered n (delete_of key) s, true)
apply_delete key append_failed s = (s, false)
