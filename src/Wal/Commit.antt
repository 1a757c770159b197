-- ===== src/Wal/Commit.antt =====
-- Open, Append, Close, BatchStats and the goroutine of `start` in kv-store/internal/wal/wal.go.
-- `Append` and the goroutine share the mutex and the queue, so each is cut where it waits: `Append`
-- holds the mutex while it waits for room in the queue, and the goroutine waits for the mutex
-- before it counts a batch. Each write to the file, the sync and each send of an answer is a step of
-- the goroutine.
pub mod Numbers
pub mod Parts
pub mod Sound
pub mod Durable
pub mod Recovered
pub mod Kept
pub mod Stored
pub mod Doomed
pub mod Hang
pub mod Deadlock
pub mod Examples
use distributed_fault_tolera.Prelude.{
  ℕ, zero, suc, ◌+◌, ◌<◌, ◌≡◌, ◌%◌, ◌^◌, Bytes, List, [], ◌∷◌, ◌++◌, Bool, true, false, Option,
  none, some, map, ltb, inc, ℤ, to_int, if◌then◌else◌, length, take, ◌==◌,
}
use distributed_fault_tolera.Prelude.Assoc.{lookup}
use distributed_fault_tolera.Wal.Codec.{Record, encode}

-- `item` is the source's `record`; its channel `done` is known by the number.
pub record PendingWrite : Type 0 where
  pub item : Record
  pub seq : ℕ

-- What the goroutine sends on `done`.
pub data Answer : Type 0 where
  durable write_failed sync_failed : Answer

-- Where the goroutine stands: at the `range`, in the loop that collects a batch, before it counts
-- the batch, in the loop that writes it (the requests whose data are written, and the others; the
-- sync comes when none is left), in one of the loops that answer it (with the requests that are not
-- answered yet), behind its end.
pub data Worker : Type 0 where
  waiting : Worker
  collecting counting : List PendingWrite → Worker
  writing : (done left : List PendingWrite) → Worker
  answering : Answer → List PendingWrite → Worker
  ended : Worker

-- `contents` is the file, and `synced` what it held when it was opened or last synced. `sending` is
-- the request of a call of `Append` that holds the mutex. `answers` holds what was sent on the
-- channels `done`. The two counts are `int`s, by their bits.
pub record Wal : Type 0 where
  pub contents : Bytes
  pub synced : Bytes
  pub queue : List PendingWrite
  pub sending : Option PendingWrite
  pub closed : Bool
  pub next_seq : ℕ
  pub batch_count : ℕ
  pub total_records : ℕ
  pub worker : Worker
  pub answers : List (ℕ × Answer)

-- The file as `os.OpenFile` finds it, with the goroutine started.
unfoldable pub open_wal : Bytes → Wal
open_wal contents = record {
  contents = contents;
  synced = contents;
  queue = [];
  sending = none;
  closed = false;
  next_seq = 0;
  batch_count = 0;
  total_records = 0;
  worker = waiting;
  answers = [];
}

-- `Append` up to its send; the Boolean says that the log was not closed.
unfoldable pub begin_append : Record → Wal → Wal × Bool
begin_append r w =
    if w.closed
    then (w, false)
    else let n = inc w.next_seq in
      (record w { next_seq = n; sending = some (record { item = r; seq = n }) }, true)

-- The buffer of the queue.
abbrev pub capacity : ℕ
capacity = 1024

-- The send, if there is room, and the unlock after it.
pub send_now : Option PendingWrite → Wal → Option Wal
send_now none w = none
send_now (some p) w =
    if ltb (length w.queue) capacity
    then some (record w { queue = w.queue ++ (p ∷ []); sending = none })
    else none

unfoldable pub send_request : Wal → Option Wal
unfolding send_now
send_request w = send_now w.sending w

-- What `Append` returns for what came on its channel: the number, or an error.
unfoldable pub append_result : ℕ → Answer → Option ℕ
append_result n durable = some n
append_result n write_failed = none
append_result n sync_failed = none

-- `Close` up to its wait for the goroutine.
unfoldable pub close_queue : Wal → Wal
close_queue w = if w.closed then w else record w { closed = true }

unfoldable pub batch_stats : Wal → ℤ × ℤ
batch_stats w = (to_int w.batch_count, to_int w.total_records)

-- What a receive from a closed and empty channel gives.
abbrev pub zero_write : PendingWrite
zero_write = record { item = record { op = 0; key = []; value = [] }; seq = 0 }

-- What becomes of a write to the file. A write that fails leaves the first bytes of its data there.
pub data WriteOutcome : Type 0 where
  written : WriteOutcome
  write_error : ℕ → WriteOutcome

-- What the disk does at a step of the goroutine: with a write, or with a sync.
pub record Disk : Type 0 where
  pub write : WriteOutcome
  pub syncs : Bool

-- `file.Write`: the contents after it, and whether it went well.
pub write_one : WriteOutcome → Bytes → Bytes → Bytes × Bool
write_one written bytes contents = (contents ++ bytes, true)
write_one (write_error k) bytes contents = (contents ++ take k bytes, false)

-- The sync of a batch, from whether it went well.
pub sync_batch : Bool → List PendingWrite → Wal → Wal
sync_batch true batch w = record w { synced = w.contents; worker = answering durable batch }
sync_batch false batch w = record w { worker = answering sync_failed batch }

-- A round of a loop that sends the answer on each `done`, and the `continue` behind the last one.
pub answer_next : Answer → List PendingWrite → Wal → Wal
answer_next a [] w = record w { worker = waiting }
answer_next a (p ∷ ps) w = record w {
  answers = w.answers ++ ((p.seq, a) ∷ []);
  worker = answering a ps;
}

-- The receive of the `range`, which ends with a closed and empty queue.
pub receive_first : List PendingWrite → Wal → Option Wal
receive_first [] w = if w.closed then some (record w { worker = ended }) else none
receive_first (p ∷ ps) w = some (record w { queue = ps; worker = collecting (p ∷ []) })

-- A round of the `select`: a closed and empty queue gives the zero value, an open one the default.
pub receive_more : List PendingWrite → List PendingWrite → Wal → Wal
receive_more batch [] w =
    if w.closed
    then record w { worker = collecting (batch ++ (zero_write ∷ [])) }
    else record w { worker = counting batch }
receive_more batch (p ∷ ps) w = record w { queue = ps; worker = collecting (batch ++ (p ∷ [])) }

-- The counts, for which the mutex has to be free.
pub count_batch : List PendingWrite → Option PendingWrite → Wal → Option Wal
count_batch batch (some p) w = none
count_batch batch none w = some (record w {
  batch_count = inc w.batch_count;
  total_records = (w.total_records + length batch) % 2 ^ 64;
  worker = writing [] batch;
})

-- The records appended so far, after a step.
abbrev pub note : Option Record → List Record → List Record
note none rs = rs
note (some r) rs = rs ++ (r ∷ [])

module _ (crc : Bytes → ℕ) where
  -- A round of the loop over the encoded records, and the sync behind it. `Record.Encode` returns no
  -- error, so each record is encoded here.
  pub write_next : Disk → List PendingWrite → List PendingWrite → Wal → Wal
  write_next disk done [] w = sync_batch disk.syncs done w
  write_next disk done (p ∷ ps) w =
      let (contents, ok) = write_one disk.write (encode crc p.item) w.contents in
      record w {
        contents = contents;
        worker =
            if ok then writing (done ++ (p ∷ [])) ps else answering write_failed (done ++ (p ∷ ps));
      }

  -- What the goroutine does next, `none` where it waits or has ended.
  pub worker_next : Worker → Disk → Wal → Option Wal
  worker_next waiting disk w = receive_first w.queue w
  worker_next (collecting batch) disk w = some (receive_more batch w.queue w)
  worker_next (counting batch) disk w = count_batch batch w.sending w
  worker_next (writing done left) disk w = some (write_next disk done left w)
  worker_next (answering a left) disk w = some (answer_next a left w)
  worker_next ended disk w = none

  unfoldable pub worker_step : Disk → Wal → Option Wal
  unfolding worker_next receive_first receive_more count_batch write_next sync_batch answer_next
      write_one
  worker_step disk w = worker_next w.worker disk w

  -- The steps that a log can take, with the record that is appended. `Allowed` says which disks the
  -- steps may meet.
  pub data Step (Allowed : Disk → Type 0) (w : Wal) : Option Record → Wal → Type 0 where
    append :
        (r : Record)
        → w.sending ≡ none
        → w.closed ≡ false
        → w.next_seq + 1 < 2 ^ 64
        → Step Allowed w (some r) (begin_append r w).0
    send : {w' : Wal} → send_request w ≡ some w' → Step Allowed w none w'
    close : w.sending ≡ none → Step Allowed w none (close_queue w)
    work :
        (disk : Disk) {w' : Wal}
        → Allowed disk
        → worker_step disk w ≡ some w'
        → Step Allowed w none w'

  -- A run from `start`, with the records that were appended, in the order of their numbers.
  pub data Run (Allowed : Disk → Type 0) (start : Wal) : List Record → Wal → Type 0 where
    here : Run Allowed start [] start
    next :
        {rs : List Record} {w w' : Wal} {label : Option Record}
        → Run Allowed start rs w
        → Step Allowed w label w'
        → Run Allowed start (note label rs) w'
