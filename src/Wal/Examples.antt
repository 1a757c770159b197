-- ===== src/Wal/Examples.antt =====
-- The theorems about the write-ahead log at a concrete record, with a sum in place of the checksum.
use distributed_fault_tolera.Prelude.{
  ℕ, ◌+◌, ◌%◌, ◌^◌, ◌<◌, Bytes, [], ◌∷◌, ◌++◌, true, ◌≡◌, ◌≢◌, arith, take,
}
use distributed_fault_tolera.Wal.Codec.{Record, ok, encode, encode_body, put_u32, decode_record}
use distributed_fault_tolera.Wal.Codec.RoundTrip.{Fits, decode_record-encode}
use distributed_fault_tolera.Wal.Replay.{done, stuck, replay}
use distributed_fault_tolera.Wal.Replay.Total.{replay-total}
use distributed_fault_tolera.Wal.Replay.Recovery.{encode_all, length-encode, replay-torn}

abbrev sum_bytes : Bytes → ℕ
sum_bytes [] = 0
sum_bytes (b ∷ bs) = b + sum_bytes bs

abbrev pub sum32 : Bytes → ℕ
sum32 bs = sum_bytes bs % 2 ^ 32

pub sum32_range : (b : Bytes) → sum32 b < 2 ^ 32
sum32_range b = omega arith

abbrev pub put_record : Record
put_record = record { op = 0; key = b'a' ∷ []; value = b'1' ∷ b'2' ∷ [] }

abbrev pub delete_record : Record
delete_record = record { op = 1; key = b'a' ∷ []; value = [] }

pub put_record-Fits : Fits put_record
put_record-Fits = omega arith

pub delete_record-Fits : Fits delete_record
delete_record-Fits = omega arith

decode_record-encode_example :
    decode_record sum32 (encode_body put_record ++ put_u32 (sum32 (encode_body put_record)))
    ≡ ok put_record
decode_record-encode_example = decode_record-encode sum32 sum32_range put_record put_record-Fits

-- The second record is cut short behind its first six bytes.
replay-torn_example :
    replay sum32 (record {
      contents = encode_all sum32 (put_record ∷ []) ++ take 6 (encode sum32 delete_record);
      seeks = true;
    })
    ≡ done (record { seq = 1; records = put_record ∷ [] })
replay-torn_example =
    replay-torn sum32 sum32_range (put_record ∷ []) delete_record 6 (put_record-Fits, tt)
      delete_record-Fits (omega (arith, length-encode sum32 delete_record))

replay-total_example : replay sum32 (record { contents = 0 ∷ 0 ∷ []; seeks = true }) ≢ stuck
replay-total_example = replay-total sum32 (record { contents = 0 ∷ 0 ∷ []; seeks = true })
