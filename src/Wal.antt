-- ===== src/Wal.antt =====
-- kv-store/internal/wal/wal.go: the records of the write-ahead log, their encoding, the replay, and
-- the writes with their commit goroutine.
-- `crc` stands for `crc32.ChecksumIEEE`, which the source takes from the standard library.
pub mod Codec
pub mod Replay
pub mod Commit
pub mod Examples
