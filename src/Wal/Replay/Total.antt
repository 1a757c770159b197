-- ===== src/Wal/Replay/Total.antt =====
-- The replay ends for every file.
use distributed_fault_tolera.Prelude.{
  ℕ, zero, suc, ◌+◌, ◌-◌, ◌≤◌, ◌<◌, Bytes, List, [], ◌≡◌, ◌≢◌, refl, arith, length,
}
use distributed_fault_tolera.Wal.Codec.{Record, Decoded, ok, err}
use distributed_fault_tolera.Wal.Replay.{
  ReadResult, full, eof, unexpected_eof, read_full, Replayed, stuck, LogFile, replay_decoded,
  replay_data, replay_length, replay_loop, replay,
}
use distributed_fault_tolera.Wal.Replay.Reading.{read_full-rest, read_full-whole}

module _ (crc : Bytes → ℕ) where
  -- A loop that does not get stuck on inputs below `n` bytes does not in the round before.
  module _ (next : List Record → Bytes → Replayed (List Record)) (n : ℕ)
      (fine : (rs : List Record) (xs : Bytes) → length xs < n → next rs xs ≢ stuck) where
    replay_decoded-total :
        (records : List Record) (rest : Bytes) (d : Decoded)
        → length rest < n
        → replay_decoded crc next records rest d ≢ stuck
    unfolding replay_decoded
    replay_decoded-total records rest (ok r) h = fine _ rest h
    replay_decoded-total records rest (err e) h = λ e. cc

    replay_data-total :
        (records : List Record) (m : ℕ) (xs : Bytes)
        → length xs < n
        → replay_data crc next records (read_full m xs) ≢ stuck
    unfolding replay_data
    replay_data-total records m xs h = go (read_full m xs) (read_full-rest m xs)
      where
        go :
            (res : ReadResult)
            → ((a b : Bytes) → res ≡ full a b → length b ≤ length xs - m)
            → replay_data crc next records res ≢ stuck
        go eof k = λ e. cc
        go unexpected_eof k = λ e. cc
        go (full a b) k = replay_decoded-total records b _ (omega (arith, k a b refl))

    replay_length-total :
        (records : List Record) (xs : Bytes)
        → length xs < n + 1
        → replay_length crc next records (read_full 4 xs) ≢ stuck
    unfolding replay_length
    replay_length-total records xs h =
        go (read_full 4 xs) (read_full-rest 4 xs) (read_full-whole 4 xs)
      where
        go :
            (res : ReadResult)
            → ((a b : Bytes) → res ≡ full a b → length b ≤ length xs - 4)
            → ((a b : Bytes) → res ≡ full a b → 4 ≤ length xs)
            → replay_length crc next records res ≢ stuck
        go eof k w = λ e. cc
        go unexpected_eof k w = λ e. cc
        go (full a b) k w = replay_data-total records _ b (omega (arith, k a b refl, w a b refl))

  -- The loop ends before its fuel does.
  replay_loop-total :
      (fuel : ℕ) (records : List Record) (input : Bytes)
      → length input < fuel
      → replay_loop crc fuel records input ≢ stuck
  unfolding replay_loop
  replay_loop-total zero records input h = elim h [ ]
  replay_loop-total (suc fuel) records input h =
      replay_length-total (replay_loop crc fuel) fuel (replay_loop-total fuel) records input
        (omega arith)

  -- A replay ends for every log file: it returns records or an error.
  pub replay-total : (file : LogFile) → replay crc file ≢ stuck
  unfolding replay
  replay-total file =
      ground (arith, replay_loop-total (suc (length file.contents)) [] file.contents)
