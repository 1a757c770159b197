-- ===== src/Wal/Commit/Examples.antt =====
-- The theorems about appending at a log that takes one record.
use distributed_fault_tolera.Prelude.{
  ℕ, ◌≤◌, Bytes, List, [], ◌∷◌, ◌++◌, true, false, ◌&&◌, Option, none, some, ◌≡◌, ◌↔◌, refl, arith,
  take, ltb, leb, ◌==◌, if◌then◌else◌,
}
use distributed_fault_tolera.Prelude.Assoc.{lookup}
use distributed_fault_tolera.Wal.Codec.{Record, encode}
use distributed_fault_tolera.Wal.Examples.{
  sum32, sum32_range, put_record, delete_record, put_record-Fits, delete_record-Fits,
}
use distributed_fault_tolera.Wal.Replay.{done, replay}
use distributed_fault_tolera.Wal.Replay.Recovery.{encode_all}
use distributed_fault_tolera.Wal.Commit.{
  PendingWrite, durable, Wal, Disk, written, open_wal, begin_append, send_request, close_queue,
  worker_step, Step, append, send, work, Run, here, next,
}
use distributed_fault_tolera.Wal.Commit.Numbers.{Works}
use distributed_fault_tolera.Wal.Commit.Parts.{IsCollecting, IsBetween}
use distributed_fault_tolera.Wal.Commit.Recovered.{Run-durable}
use distributed_fault_tolera.Wal.Commit.Kept.{Holds}
use distributed_fault_tolera.Wal.Commit.Stored.{Run-stored}
use distributed_fault_tolera.Prelude.{◌+◌, ◌<◌, ◌^◌, get_elem?}
use distributed_fault_tolera.Wal.Commit.{write_failed, write_error}
use distributed_fault_tolera.Wal.Commit.Hang.{Ends, close_queue-Ends_iff}
use distributed_fault_tolera.Wal.Commit.Deadlock.{Run-deadlock}

abbrev pub good_disk : Disk
good_disk = record { write = written; syncs = true }

pub good_disk-Works : Works good_disk
good_disk-Works = (refl, refl)

abbrev put_write : PendingWrite
put_write = record { item = put_record; seq = 1 }

-- The log behind one `Append`, after its record is written, synced and answered.
abbrev pub one_committed : Bytes → Wal
one_committed contents = record (open_wal contents) {
  contents = contents ++ encode sum32 put_record;
  synced = contents ++ encode sum32 put_record;
  next_seq = 1;
  batch_count = 1;
  total_records = 1;
  answers = (1, durable) ∷ [];
}

working :
    {start w w' : Wal} {rs : List Record}
    → Run sum32 Works start rs w
    → worker_step sum32 good_disk w ≡ some w'
    → Run sum32 Works start rs w'
working run e = next run (work good_disk good_disk-Works e)

pub one_committed-Run :
    (contents : Bytes)
    → Run sum32 Works (open_wal contents) (put_record ∷ []) (one_committed contents)
unfolding open_wal begin_append send_request worker_step
one_committed-Run contents =
    let begun = next here (append put_record refl refl (omega arith)) in
    let sent = next begun (send refl) in
    let collected = working sent refl in
    let counted = working (working collected refl) refl in
    let synced = working (working counted refl) refl in working (working synced refl) refl

Run-durable_example :
    let w = one_committed (encode_all sum32 (delete_record ∷ [])) in
    (k j m : ℕ) × (k ≤ j)
    × (j ≤ m)
    × (m ≤ 1)
    × ((n : ℕ) → lookup ◌==◌ n w.answers ≡ (if ltb 0 n && leb n k then some durable else none))
    × (replay sum32 (record { contents = w.synced; seeks = true })
        ≡ done (record { seq = 1; records = (delete_record ∷ []) ++ take j (put_record ∷ []) }))
    × (replay sum32 (record { contents = w.contents; seeks = true })
        ≡ done (record { seq = 1; records = (delete_record ∷ []) ++ take m (put_record ∷ []) }))
    × (IsBetween w.worker → (k ≡ j) × (j ≡ m))
Run-durable_example =
    Run-durable sum32 sum32_range (delete_record ∷ []) (put_record ∷ []) (delete_record-Fits, tt)
      (put_record-Fits, tt) (one_committed-Run (encode_all sum32 (delete_record ∷ [])))

abbrev AnyDisk : Disk → Type 0
AnyDisk disk = Unit

-- The disk fails at each step.
abbrev bad_disk : Disk
bad_disk = record { write = write_error 3; syncs = false }

-- A second record is appended, whose write fails behind its third byte.
abbrev one_failed : Wal
one_failed = record (one_committed []) {
  contents = encode sum32 put_record ++ take 3 (encode sum32 delete_record);
  next_seq = 2;
  batch_count = 2;
  total_records = 2;
  answers = (1, durable) ∷ (2, write_failed) ∷ [];
}

on_any :
    {start w w' : Wal} {rs : List Record} (disk : Disk)
    → Run sum32 AnyDisk start rs w
    → worker_step sum32 disk w ≡ some w'
    → Run sum32 AnyDisk start rs w'
on_any disk run e = next run (work disk tt e)

second_fits : 1 + 1 < 2 ^ 64
second_fits = omega arith

one_failed-Run : Run sum32 AnyDisk (open_wal []) (put_record ∷ delete_record ∷ []) one_failed
unfolding open_wal begin_append send_request worker_step
one_failed-Run =
    let begun = next here (append put_record refl refl (omega arith)) in
    let collected = on_any good_disk (next begun (send refl)) refl in
    let counted = on_any good_disk (on_any good_disk collected refl) refl in
    let synced = on_any good_disk (on_any good_disk counted refl) refl in
    let idle = on_any good_disk (on_any good_disk synced refl) refl in
    let again = next idle (append delete_record refl refl second_fits) in
    let taken = on_any bad_disk (next again (send refl)) refl in
    let late = on_any bad_disk (on_any bad_disk taken refl) refl in
    on_any bad_disk (on_any bad_disk (on_any bad_disk late refl) refl) refl

Run-stored_example :
    (k : ℕ) × (r : Record) × (1 ≡ k + 1)
    × (get_elem? (put_record ∷ delete_record ∷ []) k ≡ some r)
    × Holds (encode sum32 r) one_failed.synced
Run-stored_example =
    Run-stored sum32 AnyDisk [] (put_record ∷ delete_record ∷ []) 0 1 one_failed-Run refl

-- One request is in the queue, and the goroutine waits.
abbrev one_queued : Wal
one_queued = record (open_wal []) { next_seq = 1; queue = put_write ∷ [] }

close_queue-Ends_iff_example :
    Ends sum32 Works (close_queue one_queued)
    ↔ ((one_queued.queue ≡ []) × ¬ IsCollecting one_queued.worker)
unfolding open_wal
close_queue-Ends_iff_example =
    close_queue-Ends_iff sum32 Works good_disk good_disk-Works one_queued refl refl (cc)

Run-deadlock_example :
    (rs : List Record) × (w : Wal) × Run sum32 Works (open_wal []) rs w
    × (w.closed ≡ false)
    × ((label : Option Record) (w' : Wal) → ¬ Step sum32 Works w label w')
Run-deadlock_example = Run-deadlock sum32 Works [] good_disk put_record good_disk-Works
