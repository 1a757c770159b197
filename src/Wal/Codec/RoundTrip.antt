-- ===== src/Wal/Codec/RoundTrip.antt =====
-- Decoding an encoded record gives the record, and nothing but an encoded record is decoded.
use distributed_fault_tolera.Prelude.{
  ℕ, ◌+◌, ◌-◌, ◌%◌, ◌^◌, ◌<◌, Bytes, [], ◌∷◌, ◌++◌, ◌≡◌, refl, ap, ◌∙◌, sym, arith, length,
  get_elem?, take, drop, length-append, take-append, drop-append,
}
use mathlib.Core.List.{append_assoc, append-nil}
use distributed_fault_tolera.Wal.Codec.{
  Record, ok, put_u32, get_u32, slice, encode_body, byte_or_zero, decode_fields, decode_record,
}

pub get_u32-put_u32 : (n : ℕ) (rest : Bytes) → n < 2 ^ 32 → get_u32 (put_u32 n ++ rest) ≡ n
unfolding get_u32 put_u32
get_u32-put_u32 n rest h = omega arith

pub length-put_u32 : (n : ℕ) → length (put_u32 n) ≡ 4
unfolding put_u32
length-put_u32 n = refl

pub length-encode_body : (r : Record) → length (encode_body r) ≡ 9 + length r.key + length r.value
unfolding encode_body put_u32
length-encode_body r = omega (arith, length-append r.key r.value)

-- The key and the value of a record that the format can hold.
pub record Fits (r : Record) : Type 0 where
  pub size : 13 + length r.key + length r.value < 2 ^ 32

-- The nine bytes before the key.
header : Record → Bytes
header r = r.op ∷ (put_u32 (length r.key % 2 ^ 32) ++ put_u32 (length r.value % 2 ^ 32))

-- The data of a record, with its checksum `c`, cut before the key, before the value and before the
-- checksum.
module _ (r : Record) (c : Bytes) where
  written : Bytes
  written = encode_body r ++ c

  length-header : length (header r) ≡ 9
  unfolding header put_u32
  length-header = refl

  at_key : written ≡ header r ++ (r.key ++ (r.value ++ c))
  unfolding written header encode_body put_u32
  at_key = ap (λ xs. header r ++ xs) (append_assoc r.key r.value c)

  at_value : written ≡ (header r ++ r.key) ++ (r.value ++ c)
  at_value = at_key ∙ sym (append_assoc (header r) r.key (r.value ++ c))

  slice-key : slice 9 (9 + length r.key) written ≡ r.key
  unfolding slice
  slice-key =
      ap (λ xs. take (9 + length r.key - 9) (drop 9 xs)) at_key
      ∙ ap (take (9 + length r.key - 9)) (drop-append (header r) _ 9 (sym length-header))
      ∙ take-append r.key (r.value ++ c) (9 + length r.key - 9) (omega arith)

  slice-value : slice (9 + length r.key) (9 + length r.key + length r.value) written ≡ r.value
  unfolding slice
  slice-value =
      ap (λ xs. take n (drop (9 + length r.key) xs)) at_value
      ∙ ap (take n) (
          drop-append (header r ++ r.key) (r.value ++ c) (9 + length r.key)
            (omega (arith, length-append (header r) r.key, length-header)))
      ∙ take-append r.value c n (omega arith)
    where
      n : ℕ
      n = 9 + length r.key + length r.value - (9 + length r.key)

  take-body : take (9 + length r.key + length r.value) written ≡ encode_body r
  unfolding written
  take-body = take-append (encode_body r) c _ (sym (length-encode_body r))

  drop-body : drop (9 + length r.key + length r.value) written ≡ c
  unfolding written
  drop-body = drop-append (encode_body r) c _ (sym (length-encode_body r))

  length-written : length written ≡ 9 + length r.key + length r.value + length c
  unfolding written
  length-written = omega (arith, length-append (encode_body r) c, length-encode_body r)

  lengths_read :
      Fits r
      → (get_u32 (slice 1 5 written) ≡ length r.key)
        × (get_u32 (slice 5 9 written) ≡ length r.value)
  unfolding written slice encode_body put_u32 get_u32
  lengths_read f = (omega (arith, f.size), omega (arith, f.size))

  op_read : byte_or_zero (get_elem? written 0) ≡ r.op
  unfolding written encode_body
  op_read = refl

module _ (crc : Bytes → ℕ) (crc_range : (b : Bytes) → crc b < 2 ^ 32) where
  decode_fields-written :
      (r : Record)
      → decode_fields crc
          (length r.key)
          (length r.value)
          (written r (put_u32 (crc (encode_body r))))
        ≡ ok r
  unfolding decode_fields
  decode_fields-written r =
      let c = put_u32 (crc (encode_body r)) in
      let stored : get_u32 c ≡ crc (encode_body r) =
        ap get_u32 (sym (append-nil c)) ∙ get_u32-put_u32 (crc (encode_body r)) [] (crc_range _) in
      ground (
        arith,
        stored,
        op_read r c,
        slice-key r c,
        slice-value r c,
        ap crc (take-body r c),
        ap get_u32 (drop-body r c),
      )

  -- A record that fits is read back from what `Encode` writes behind the length.
  pub decode_record-encode :
      (r : Record)
      → Fits r
      → decode_record crc (encode_body r ++ put_u32 (crc (encode_body r))) ≡ ok r
  unfolding decode_record written
  decode_record-encode r f =
      let c = put_u32 (crc (encode_body r)) in
      ground (
        arith,
        lengths_read r c f,
        length-written r c,
        length-put_u32 (crc (encode_body r)),
        decode_fields-written r,
      )
