-- ===== src/Store/Examples.antt =====
-- The theorems about the store at concrete records: three writes, of which the second arrives last.
use distributed_fault_tolera.Prelude.{
  ℕ, ◌↔◌, eq_bytes, ◌≤◌, ◌<◌, Bytes, List, [], ◌∷◌, ◌++◌, true, false, none, some, ◌≡◌, ◌-◌, arith,
  foldl, take, inr, ◌==◌, if◌then◌else◌,
}
use distributed_fault_tolera.Wal.Codec.{Record, encode}
use distributed_fault_tolera.Wal.Examples.{
  sum32, sum32_range, put_record, delete_record, put_record-Fits, delete_record-Fits,
}
use distributed_fault_tolera.Wal.Replay.{done}
use distributed_fault_tolera.Wal.Replay.Recovery.{encode_all, length-encode}
use distributed_fault_tolera.Store.{
  Store, get_value, new_store, set, delete_key, existed, seq, append_failed,
}
use distributed_fault_tolera.Store.Writes.{write_lem}
use distributed_fault_tolera.Store.Order.{
  Bounded, contains, receive, empty_queue, apply_range, receive_lem, receive-any_order,
}
use distributed_fault_tolera.Prelude.{◌==◌}
use distributed_fault_tolera.Prelude.Assoc.{lookup}
use distributed_fault_tolera.Wal.Commit.{open_wal}
use distributed_fault_tolera.Wal.Commit.Parts.{IsBetween}
use distributed_fault_tolera.Wal.Commit.Examples.{one_committed, one_committed-Run}
use distributed_fault_tolera.Store.Agreement.{is_some, record_of, receive-new_store}
use distributed_fault_tolera.Store.Recovery.{written, new_store-recovers}

-- Number 2 deletes what the other records put.
abbrev three_writes : ℕ → Record
three_writes n = if n == 2 then delete_record else put_record

abbrev late_second : List ℕ
late_second = 2 ∷ 1 ∷ 3 ∷ []

abbrev in_order : List ℕ
in_order = 3 ∷ 2 ∷ 1 ∷ []

late_second-Bounded : Bounded late_second
late_second-Bounded q h = ground (arith, h)

in_order-Bounded : Bounded in_order
in_order-Bounded q h = ground (arith, h)

same_numbers : (q : ℕ) → contains q late_second ≡ contains q in_order
same_numbers q = ground arith

receive_lem_example :
    let s = receive three_writes late_second (empty_queue 1 []) in
    (1 ≤ s.next_apply_seq)
    × ((q : ℕ) → 1 ≤ q → q < s.next_apply_seq → contains q late_second ≡ true)
    × (contains s.next_apply_seq late_second ≡ false)
    × (s.values ≡ apply_range three_writes 1 (s.next_apply_seq - 1) [])
receive_lem_example = receive_lem three_writes 1 [] late_second late_second-Bounded

receive-any_order_example :
    let s = receive three_writes late_second (empty_queue 1 []) in
    let s' = receive three_writes in_order (empty_queue 1 []) in
    (s.next_apply_seq ≡ s'.next_apply_seq) × (s.values ≡ s'.values)
receive-any_order_example =
    receive-any_order three_writes 1 [] late_second in_order late_second-Bounded in_order-Bounded
      same_numbers

new_store-recovers_example :
    (s : Store) × (new_store sum32 (record {
      contents = encode_all sum32 (put_record ∷ []) ++ take 6 (encode sum32 delete_record);
      seeks = true;
    })
      ≡ done s)
    × (s.next_apply_seq ≡ 1)
    × (s.pending ≡ [])
    × ((key : Bytes) → get_value key s ≡ foldl (written key) none (put_record ∷ []))
new_store-recovers_example =
    new_store-recovers sum32 sum32_range (put_record ∷ []) delete_record 6 (put_record-Fits, tt)
      delete_record-Fits (omega (arith, length-encode sum32 delete_record)) (inr (omega arith))

write_lem_example :
    let s = empty_queue 1 ((b'a' ∷ [], b'1' ∷ []) ∷ []) in
    let after_set = set (b'b' ∷ []) (b'2' ∷ []) (seq 1) s in
    let after_delete = delete_key (b'b' ∷ []) (existed (b'b' ∷ []) s) (seq 1) s in
    (after_set.1 ≡ true)
    × (get_value (b'a' ∷ []) after_set.0
        ≡ (if eq_bytes (b'b' ∷ []) (b'a' ∷ []) then some (b'2' ∷ []) else get_value (b'a' ∷ []) s))
    × ((after_delete.1 ≡ false) ↔ (get_value (b'b' ∷ []) s ≡ none))
    × (after_delete.2 ≡ true)
    × (get_value (b'a' ∷ []) after_delete.0
        ≡ (if eq_bytes (b'b' ∷ []) (b'a' ∷ []) then none else get_value (b'a' ∷ []) s))
    × (set (b'b' ∷ []) (b'2' ∷ []) append_failed s ≡ (s, false))
    × (delete_key (b'b' ∷ []) (existed (b'b' ∷ []) s) append_failed s ≡ (s, false, false))
write_lem_example = write_lem 1 ((b'a' ∷ [], b'1' ∷ []) ∷ []) (b'b' ∷ []) (b'2' ∷ []) (b'a' ∷ [])

-- The one record of the log has been answered and handed to the store.
one_handed : (q : ℕ) → contains q (1 ∷ []) ≡ is_some (lookup ◌==◌ q (one_committed []).answers)
unfolding lookup open_wal
one_handed q = ground arith

one_idle : IsBetween (one_committed []).worker
unfolding open_wal
one_idle = tt

receive-new_store_example :
    (s : Store) × (new_store sum32 (record { contents = (one_committed []).contents; seeks = true })
      ≡ done s)
    × (s.values ≡ (receive (record_of (put_record ∷ [])) (1 ∷ []) (empty_queue 1 [])).values)
receive-new_store_example =
    receive-new_store sum32 sum32_range (put_record ∷ []) (1 ∷ []) (put_record-Fits, tt)
      (omega arith) (one_committed-Run []) one_idle one_handed
