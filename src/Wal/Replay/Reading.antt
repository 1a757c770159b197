-- ===== src/Wal/Replay/Reading.antt =====
-- `io.ReadFull` on input that is long enough, or too short.
use distributed_fault_tolera.Prelude.{
  ℕ, ◌-◌, ◌≤◌, ◌<◌, Bytes, ◌++◌, ◌≡◌, arith, length, length-append, take-append, drop-append,
  length-drop,
}
use distributed_fault_tolera.Wal.Replay.{full, unexpected_eof, read_full}

pub read_full-eq :
    (n : ℕ) (xs rest : Bytes) → 0 < n → n ≡ length xs → read_full n (xs ++ rest) ≡ full xs rest
unfolding read_full
read_full-eq n xs rest h e =
    ground (arith, length-append xs rest, take-append xs rest n e, drop-append xs rest n e)

pub read_full-rest : (n : ℕ) (xs a b : Bytes) → read_full n xs ≡ full a b → length b ≤ length xs - n
unfolding read_full
read_full-rest n xs a b h = ground (arith, length-drop n xs)

pub read_full-whole : (n : ℕ) (xs a b : Bytes) → read_full n xs ≡ full a b → n ≤ length xs
unfolding read_full
read_full-whole n xs a b h = ground arith

pub read_full-short :
    (n : ℕ) (xs : Bytes) → 0 < length xs → length xs < n → read_full n xs ≡ unexpected_eof
unfolding read_full
read_full-short n xs h k = ground arith
