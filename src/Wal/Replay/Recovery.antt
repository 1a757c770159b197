-- ===== src/Wal/Replay/Recovery.antt =====
-- What a replay makes of a log that `Encode` wrote, whole or cut short by a crash.
use distributed_fault_tolera.Prelude.{
  ℕ, suc, ◌+◌, ◌-◌, ◌%◌, ◌^◌, ◌≤◌, ◌<◌, Bytes, List, [], ◌∷◌, ◌++◌, ◌≡◌, refl, ap, ◌∙◌, sym, arith,
  All, length, take, length-append, dec_lt, ltb, ◌==◌, ◌||◌, if◌then◌else◌, length-take,
  take-append_beyond, true,
}
use mathlib.Core.List.{append_assoc, append-nil}
use distributed_fault_tolera.Wal.Codec.{
  Record, ok, put_u32, get_u32, encode_body, encode, decode_record,
}
use distributed_fault_tolera.Wal.Codec.RoundTrip.{
  Fits, length-encode_body, length-put_u32, get_u32-put_u32, decode_record-encode,
}
use distributed_fault_tolera.Wal.Replay.{
  replayed, read_full, done, failed, torn_length, no_body, replay_decoded, replay_data,
  replay_length, replay_loop, replay,
}
use distributed_fault_tolera.Wal.Replay.Reading.{read_full-eq}

module _ (crc : Bytes → ℕ) where
  -- What a run of `Append` leaves in the file.
  unfoldable pub encode_all : List Record → Bytes
  encode_all [] = []
  encode_all (r ∷ rs) = encode crc r ++ encode_all rs

-- What `Encode` writes: the length, and then the data that it counts.
module _ (crc : Bytes → ℕ) (r : Record) where
  length_field : Bytes
  length_field = put_u32 ((length (encode_body r) + 4) % 2 ^ 32)

  record_data : Bytes
  record_data = encode_body r ++ put_u32 (crc (encode_body r))

  encode-parts : encode crc r ≡ length_field ++ record_data
  unfolding encode length_field record_data
  encode-parts = refl

  length-length_field : length length_field ≡ 4
  unfolding length_field
  length-length_field = length-put_u32 _

  length-record_data : length record_data ≡ 13 + length r.key + length r.value
  unfolding record_data
  length-record_data = omega (
    arith,
    length-append (encode_body r) (put_u32 (crc (encode_body r))),
    length-encode_body r,
    length-put_u32 (crc (encode_body r)),
  )

  get_u32-length_field : Fits r → get_u32 length_field ≡ length record_data
  unfolding length_field
  get_u32-length_field f =
      ap get_u32 (sym (append-nil _))
      ∙ get_u32-put_u32 _ [] (omega arith)
      ∙ omega (arith, length-encode_body r, length-record_data, f.size)

  pub length-encode : length (encode crc r) ≡ 17 + length r.key + length r.value
  length-encode =
      ap length encode-parts
      ∙ omega
          (arith, length-append length_field record_data, length-length_field, length-record_data)

  short_length :
      (fuel : ℕ) (records : List Record) (xs : Bytes)
      → length xs < 4
      → replay_loop crc (suc fuel) records xs
        ≡ (if length xs == 0 then done records else failed torn_length)
  unfolding replay_loop replay_length read_full
  short_length fuel records xs h = ground arith

  short_data :
      (fuel : ℕ) (records : List Record) (n : ℕ) (xs : Bytes)
      → length xs < n
      → replay_data crc (replay_loop crc fuel) records (read_full n xs)
        ≡ (if length xs == 0 then failed no_body else done records)
  unfolding replay_data read_full
  short_data fuel records n xs h = ground arith

  -- Once the length of a record is read, the rest is read against the size of its data.
  replay_loop-length :
      (fuel : ℕ) (records : List Record) (rest : Bytes)
      → Fits r
      → replay_loop crc (suc fuel) records (length_field ++ rest)
        ≡ replay_data crc (replay_loop crc fuel) records (read_full (length record_data) rest)
  unfolding replay_loop replay_length
  replay_loop-length fuel records rest f =
      ap (replay_length crc (replay_loop crc fuel) records)
        (read_full-eq 4 length_field rest (omega arith) (sym length-length_field))
      ∙ ap (λ n. replay_data crc (replay_loop crc fuel) records (read_full n rest))
          (get_u32-length_field f)

  -- A record of which the first `k` bytes were written, but not all.
  replay_loop-torn :
      (fuel k : ℕ) (records : List Record)
      → Fits r
      → k < length (encode crc r)
      → replay_loop crc (suc fuel) records (take k (encode crc r)) ≡ (
          if k == 0 || ltb 4 k
          then done records
          else if ltb k 4
          then failed torn_length
          else failed no_body)
  replay_loop-torn fuel k records f h = elim (dec_lt k 4) [
    | yes in_length ↦
        short_length fuel records (take k (encode crc r)) (omega (arith, cut)) ∙ ground (arith, cut)
    | no past ↦
        ap (replay_loop crc (suc fuel) records) (
          ap (take k) encode-parts
          ∙ take-append_beyond length_field record_data (k - 4) k
              (omega (arith, length-length_field)))
        ∙ replay_loop-length fuel records (take (k - 4) record_data) f
        ∙ short_data fuel records (length record_data) (take (k - 4) record_data)
            (omega (arith, left, parts))
        ∙ ground (arith, left, parts)
  ]
    where
      cut : length (take k (encode crc r)) ≡ k
      cut = length-take k (encode crc r) (omega arith)

      parts : length (encode crc r) ≡ 4 + length record_data
      parts = omega (arith, length-encode, length-record_data)

      left : length (take (k - 4) record_data) ≡ k - 4
      left = length-take (k - 4) record_data (omega (arith, parts))

module _ (crc : Bytes → ℕ) (crc_range : (b : Bytes) → crc b < 2 ^ 32) where
  decode_record-data : (r : Record) → Fits r → decode_record crc (record_data crc r) ≡ ok r
  unfolding record_data
  decode_record-data r f = decode_record-encode crc crc_range r f

  -- A round over a whole record puts the record behind those that are read.
  replay_loop-record :
      (fuel : ℕ) (records : List Record) (r : Record) (rest : Bytes)
      → Fits r
      → replay_loop crc (suc fuel) records (encode crc r ++ rest)
        ≡ replay_loop crc fuel (records ++ r ∷ []) rest
  unfolding replay_data replay_decoded
  replay_loop-record fuel records r rest f =
      ap (λ xs. replay_loop crc (suc fuel) records (xs ++ rest)) (encode-parts crc r)
      ∙ ap (replay_loop crc (suc fuel) records)
          (append_assoc (length_field crc r) (record_data crc r) rest)
      ∙ replay_loop-length crc r fuel records (record_data crc r ++ rest) f
      ∙ ap (replay_data crc (replay_loop crc fuel) records) (
          read_full-eq (length (record_data crc r)) (record_data crc r) rest
            (omega (arith, length-record_data crc r)) refl)
      ∙ ap (replay_decoded crc (replay_loop crc fuel) records rest) (decode_record-data r f)

  -- A loop over whole records reads them all, a round for each.
  replay_loop-records :
      (fuel : ℕ) (records rs : List Record) (tail : Bytes)
      → All Fits rs
      → replay_loop crc (length rs + fuel) records (encode_all crc rs ++ tail)
        ≡ replay_loop crc fuel (records ++ rs) tail
  unfolding encode_all
  replay_loop-records fuel records [] tail f =
      ap (λ n. replay_loop crc n records tail) (omega arith)
      ∙ ap (λ rs. replay_loop crc fuel rs tail) (sym (append-nil records))
  replay_loop-records fuel records (r ∷ rs) tail f =
      ap (λ n. replay_loop crc n records (encode crc r ++ encode_all crc rs ++ tail))
        {y = suc (length rs + fuel)} (omega arith)
      ∙ ap (replay_loop crc (suc (length rs + fuel)) records)
          (append_assoc (encode crc r) (encode_all crc rs) tail)
      ∙ replay_loop-record (length rs + fuel) records r (encode_all crc rs ++ tail) f.0
      ∙ replay_loop-records fuel (records ++ r ∷ []) rs tail f.1
      ∙ ap (λ xs. replay_loop crc fuel xs tail) (append_assoc records (r ∷ []) rs)

  length-encode_all : (rs : List Record) → length rs ≤ length (encode_all crc rs)
  unfolding encode_all
  length-encode_all [] = omega arith
  length-encode_all (r ∷ rs) = omega (
    arith,
    length-append (encode crc r) (encode_all crc rs),
    length-encode crc r,
    length-encode_all rs,
  )

  -- A log of whole records, then the first `k` bytes of one more that a crash cut short: the replay
  -- returns exactly the whole records, if nothing or more than four bytes of the last one are there.
  -- With one to four bytes of it there, the replay fails, and the store cannot be opened.
  pub replay-torn :
      (rs : List Record) (r : Record) (k : ℕ)
      → All Fits rs
      → Fits r
      → k < length (encode crc r)
      → replay crc (record { contents = encode_all crc rs ++ take k (encode crc r); seeks = true })
        ≡ (if k == 0 || ltb 4 k
            then done (record { seq = 1; records = rs })
            else if ltb k 4
            then failed torn_length
            else failed no_body)
  unfolding replay
  replay-torn rs r k f g h =
      ap replayed (
        ap (λ n. replay_loop crc n [] (encode_all crc rs ++ tail)) fuel
        ∙ replay_loop-records (suc spare) [] rs tail f
        ∙ replay_loop-torn crc r spare k rs g h)
      ∙ ground arith
    where
      tail : Bytes
      tail = take k (encode crc r)

      spare : ℕ
      spare = length (encode_all crc rs ++ tail) - length rs

      fuel : suc (length (encode_all crc rs ++ tail)) ≡ length rs + suc spare
      fuel = omega (arith, length-append (encode_all crc rs) tail, length-encode_all rs)
