-- ===== src/Wal/Replay.antt =====
-- `Replay` of kv-store/internal/wal/wal.go, over the contents of the log file. `read_full` is what
-- `io.ReadFull` does with the bytes that are left, and `binary.Read` of a `uint32` is one such read.
mod Reading
pub mod Total
pub mod Recovery
use distributed_fault_tolera.Prelude.{
  ℕ, zero, suc, ◌+◌, Bytes, List, [], ◌∷◌, ◌++◌, Bool, true, false, ◌||◌, ltb, ◌==◌, if◌then◌else◌,
  length, take, drop,
}
use distributed_fault_tolera.Wal.Codec.{
  Record, DecodeError, Decoded, ok, err, get_u32, decode_record,
}

-- `io.EOF` says that no byte was left, `io.ErrUnexpectedEOF` that there were some, but too few.
pub data ReadResult : Type 0 where
  full : (bytes rest : Bytes) → ReadResult
  eof unexpected_eof : ReadResult

unfoldable pub read_full : ℕ → Bytes → ReadResult
read_full n input =
    if n == 0
    then full [] input
    else if length input == 0
    then eof
    else if ltb (length input) n
    then unexpected_eof
    else full (take n input) (drop n input)

pub data ReplayError : Type 0 where
  seek_failed torn_length no_body : ReplayError
  bad_record : DecodeError → ReplayError

pub record ReplayRecord : Type 0 where
  pub seq : ℕ
  pub records : List Record

-- `stuck` is no Go value: the loop ran out of fuel.
pub data Replayed {ℓ} (A : Type ℓ) : Type ℓ where
  done : A → Replayed A
  failed : ReplayError → Replayed A
  stuck : Replayed A

-- A file that the log is kept in: what it holds, and whether `Seek` works.
pub record LogFile : Type 0 where
  pub contents : Bytes
  pub seeks : Bool

abbrev pub replayed : Replayed (List Record) → Replayed ReplayRecord
replayed (done records) = done (record { seq = 1; records = records })
replayed (failed e) = failed e
replayed stuck = stuck

module _ (crc : Bytes → ℕ) where
  -- After the data of a record: `next` is the loop after this round.
  unfoldable pub replay_decoded :
      (List Record → Bytes → Replayed (List Record))
      → List Record
      → Bytes
      → Decoded
      → Replayed (List Record)
  replay_decoded next records rest (ok r) = next (records ++ (r ∷ [])) rest
  replay_decoded next records rest (err e) = failed (bad_record e)

  -- A record that is cut short ends the loop, but not one of which nothing is there.
  unfoldable pub replay_data :
      (List Record → Bytes → Replayed (List Record))
      → List Record
      → ReadResult
      → Replayed (List Record)
  unfolding replay_decoded
  replay_data next records eof = failed no_body
  replay_data next records unexpected_eof = done records
  replay_data next records (full input rest) =
      replay_decoded next records rest (decode_record crc input)

  -- No length at all ends the loop; a length that is cut short is an error.
  unfoldable pub replay_length :
      (List Record → Bytes → Replayed (List Record))
      → List Record
      → ReadResult
      → Replayed (List Record)
  unfolding replay_data
  replay_length next records eof = done records
  replay_length next records unexpected_eof = failed torn_length
  replay_length next records (full input rest) =
      replay_data next records (read_full (get_u32 input) rest)

  -- The records that are read so far are the second argument.
  unfoldable pub replay_loop : ℕ → List Record → Bytes → Replayed (List Record)
  unfolding replay_length
  replay_loop zero records input = stuck
  replay_loop (suc fuel) records input =
      replay_length (replay_loop fuel) records (read_full 4 input)

  -- Each round takes the four bytes of a length at least, so a round for each byte is enough.
  unfoldable pub replay : LogFile → Replayed ReplayRecord
  replay file =
      if file.seeks
      then replayed (replay_loop (suc (length file.contents)) [] file.contents)
      else failed seek_failed
