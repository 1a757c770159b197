-- ===== src/Wal/Codec.antt =====
-- `Record.Encode` and `decodeRecord` of kv-store/internal/wal/wal.go.
pub mod RoundTrip
use distributed_fault_tolera.Prelude.{
  ℕ, ◌+◌, ◌-◌, ◌*◌, ◌/◌, ◌%◌, ◌^◌, Bytes, List, [], ◌∷◌, ◌++◌, Option, none, some, not, ltb, ◌==◌,
  if◌then◌else◌, length, get_elem?, take, drop,
}

-- `OpType` is a byte: a decoded record may hold any value.
abbrev pub op_put : ℕ
op_put = 0

abbrev pub op_delete : ℕ
op_delete = 1

pub record Record : Type 0 where
  pub op : ℕ
  pub key : Bytes
  pub value : Bytes

pub data DecodeError : Type 0 where
  too_small invalid_length checksum_mismatch : DecodeError

pub data Decoded : Type 0 where
  ok : Record → Decoded
  err : DecodeError → Decoded

-- The four bytes of a `uint32`, the highest first.
unfoldable pub put_u32 : ℕ → Bytes
put_u32 n = (n / 2 ^ 24 % 256) ∷ (n / 2 ^ 16 % 256) ∷ (n / 2 ^ 8 % 256) ∷ (n % 256) ∷ []

-- `binary.BigEndian.Uint32` reads the first four bytes; the source gives it no fewer.
unfoldable pub get_u32 : Bytes → ℕ
get_u32 (a ∷ b ∷ c ∷ d ∷ rest) = a * 2 ^ 24 + b * 2 ^ 16 + c * 2 ^ 8 + d
get_u32 _ = 0

-- xs[a:b]
unfoldable pub slice : ℕ → ℕ → Bytes → Bytes
slice a b xs = take (b - a) (drop a xs)

abbrev pub byte_or_zero : Option ℕ → ℕ
byte_or_zero none = 0
byte_or_zero (some b) = b

-- Op, key length, value length, key, value.
unfoldable pub encode_body : Record → Bytes
encode_body r =
    r.op
    ∷ (put_u32 (length r.key % 2 ^ 32) ++ (put_u32 (length r.value % 2 ^ 32) ++ (r.key ++ r.value)))

module _ (crc : Bytes → ℕ) where
  -- The writes go to buffers in memory, which never fail, so the source's error returns are dead.
  unfoldable pub encode : Record → Bytes
  encode r =
      let body = encode_body r in
      put_u32 ((length body + 4) % 2 ^ 32) ++ (body ++ put_u32 (crc body))

  -- The two lengths have been read, and the length of the data is what they say.
  unfoldable pub decode_fields : ℕ → ℕ → Bytes → Decoded
  decode_fields key_len value_len input =
      let value_end = 9 + key_len + value_len in
      if not (get_u32 (drop value_end input) == crc (take value_end input))
      then err checksum_mismatch
      else ok (record {
        op = byte_or_zero (get_elem? input 0);
        key = slice 9 (9 + key_len) input;
        value = slice (9 + key_len) value_end input;
      })

  unfoldable pub decode_record : Bytes → Decoded
  decode_record input =
      let key_len = get_u32 (slice 1 5 input) in
      let value_len = get_u32 (slice 5 9 input) in
      if ltb (length input) 13
      then err too_small
      else if not (length input == 9 + key_len + value_len + 4)
      then err invalid_length
      else decode_fields key_len value_len input
