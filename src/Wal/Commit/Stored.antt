-- ===== src/Wal/Commit/Stored.antt =====
-- Whatever the disk does, no record is answered with success before its data are synced.
use mathlib.Core.List.{append-nil}
use distributed_fault_tolera.Prelude.{
  ℕ, ◌+◌, ◌^◌, Bytes, List, [], ◌∷◌, ◌++◌, Option, none, some, ◌≡◌, ◌⊎◌, inl, inr, refl, ap, sym,
  ◌∙◌, arith, subst, if_elim, length, inc, get_elem?, All, All-append, All-get_elem?, ◌%◌,
}
use distributed_fault_tolera.Wal.Codec.{Record, encode}
use distributed_fault_tolera.Wal.Commit.{
  PendingWrite, Answer, durable, Worker, waiting, collecting, counting, writing, answering, ended,
  Wal, Disk, open_wal, sync_batch, write_next, answer_next, send_now, send_request, close_queue,
  receive_first, receive_more, count_batch, worker_next, worker_step, Step, append, send, close,
  work, Run, here, next, note,
}
use distributed_fault_tolera.Wal.Commit.Parts.{batch_of, in_sending, IsHung}
use distributed_fault_tolera.Wal.Commit.Kept.{
  Holds, IsNumbered, IsStored, AllStored, HasData, IsKept, append-IsKept, batch_at,
  sync_batch-IsKept, write_one-IsKept, answer_next-IsKept,
}

module _ (crc : Bytes → ℕ) where
  -- A step that moves requests on: the file and the answers stay.
  moved :
      {rs : List Record} {w w' : Wal}
      → IsKept crc rs w
      → w'.contents ≡ w.contents
      → w'.synced ≡ w.synced
      → w'.next_seq ≡ w.next_seq
      → w'.answers ≡ w.answers
      → All (IsNumbered rs) w'.queue
      → All (IsNumbered rs) (in_sending w'.sending)
      → IsHung w' ⊎ All (IsNumbered rs) (batch_of w'.worker)
      → HasData crc w'.worker w'.contents w'.synced
      → IsKept crc rs w'
  moved {rs} {w} {w'} s same_contents same_synced same_seq same_answers queued sent batch held =
      record {
        tail = s.tail;
        file = same_contents ∙ s.file ∙ ap (λ c. c ++ s.tail) (sym same_synced);
        numbered = same_seq ∙ s.numbered;
        queued = queued;
        sent = sent;
        batch = batch;
        held = held;
        stored =
            subst (λ c. AllStored crc rs c w'.answers) (sym same_synced)
              (subst (AllStored crc rs w.synced) (sym same_answers) s.stored);
      }

  open_wal-IsKept : (contents : Bytes) → IsKept crc [] (open_wal contents)
  unfolding open_wal
  open_wal-IsKept contents = record {
    tail = [];
    file = sym (append-nil contents);
    numbered = refl;
    queued = tt;
    sent = tt;
    batch = inr tt;
    held = tt;
    stored = tt;
  }

  receive_first-IsKept :
      {rs : List Record} (w : Wal) (queue : List PendingWrite) {w' : Wal}
      → w.queue ≡ queue
      → receive_first queue w ≡ some w'
      → IsKept crc rs w
      → IsKept crc rs w'
  unfolding receive_first
  receive_first-IsKept {rs} w [] {w'} first e s =
      let done : record w { worker = ended } ≡ w' = ground (arith, e) in
      subst (IsKept crc rs) done (moved s refl refl refl refl s.queued s.sent (inr tt) tt)
  receive_first-IsKept {rs} w (p ∷ ps) {w'} first e s =
      let done : record w { queue = ps; worker = collecting (p ∷ []) } ≡ w' = ground (arith, e) in
      let (this, others) = subst (All (IsNumbered rs)) first s.queued in
      subst (IsKept crc rs) done (moved s refl refl refl refl others s.sent (inr (this, tt)) tt)

  receive_more-IsKept :
      {rs : List Record} (w : Wal) (batch queue : List PendingWrite)
      → w.worker ≡ collecting batch
      → w.queue ≡ queue
      → IsKept crc rs w
      → IsKept crc rs (receive_more batch queue w)
  unfolding receive_more
  receive_more-IsKept {rs} w batch [] at first s =
      if_elim (IsKept crc rs) w.closed
        (λ shut. moved s refl refl refl refl s.queued s.sent (inl (shut, tt)) tt)
        (λ live.
          moved s refl refl refl refl s.queued s.sent
            (elim s.batch [
              | inl h ↦ absurd (ground (arith, h, live))
              | inr all ↦ inr (subst (λ x. All (IsNumbered rs) (batch_of x)) at all)
            ])
            tt)
  receive_more-IsKept {rs} w batch (p ∷ ps) at first s =
      let (this, others) = subst (All (IsNumbered rs)) first s.queued in
      moved s refl refl refl refl others s.sent
        (elim s.batch [
          | inl h ↦ inl (h.0, tt)
          | inr all ↦ inr (
              All-append (IsNumbered rs) batch (p ∷ [])
                (subst (λ x. All (IsNumbered rs) (batch_of x)) at all) (this, tt))
        ])
        tt

  count_batch-IsKept :
      {rs : List Record} (w : Wal) (batch : List PendingWrite) (sending : Option PendingWrite)
      {w' : Wal}
      → w.worker ≡ counting batch
      → count_batch batch sending w ≡ some w'
      → IsKept crc rs w
      → IsKept crc rs w'
  unfolding count_batch
  count_batch-IsKept w batch (some p) at e s = cc
  count_batch-IsKept {rs} w batch none {w'} at e s =
      let done : record w {
        batch_count = inc w.batch_count;
        total_records = (w.total_records + length batch) % 2 ^ 64;
        worker = writing [] batch;
      }
          ≡ w' =
        ground (arith, e) in
      subst (IsKept crc rs) done
        (moved s refl refl refl refl s.queued s.sent (inr (batch_at crc s at (λ c. c))) tt)

  -- The steps of the goroutine.
  worker_next-IsKept :
      {rs : List Record} (w : Wal) {w' : Wal} (disk : Disk) (at : Worker)
      → w.worker ≡ at
      → worker_next crc at disk w ≡ some w'
      → IsKept crc rs w
      → IsKept crc rs w'
  unfolding worker_next write_next
  worker_next-IsKept w disk waiting at e s = receive_first-IsKept w w.queue refl e s
  worker_next-IsKept {rs} w {w'} disk (collecting batch) at e s =
      let same : receive_more batch w.queue w ≡ w' = ground (arith, e) in
      subst (IsKept crc rs) same (receive_more-IsKept w batch w.queue at refl s)
  worker_next-IsKept w disk (counting batch) at e s = count_batch-IsKept w batch w.sending at e s
  worker_next-IsKept {rs} w {w'} disk (writing done []) at e s =
      let same : sync_batch disk.syncs done w ≡ w' = ground (arith, e) in
      subst (IsKept crc rs) same (sync_batch-IsKept crc disk.syncs done at s)
  worker_next-IsKept {rs} w {w'} disk (writing done (p ∷ ps)) at e s =
      let same : write_next crc disk done (p ∷ ps) w ≡ w' = ground (arith, e) in
      subst (IsKept crc rs) same (write_one-IsKept crc disk.write done p ps at s)
  worker_next-IsKept {rs} w {w'} disk (answering a left) at e s =
      let same : answer_next a left w ≡ w' = ground (arith, e) in
      subst (IsKept crc rs) same (answer_next-IsKept crc a left at s)
  worker_next-IsKept w disk ended at e s = cc

  send_now-IsKept :
      {rs : List Record} (w : Wal) (sending : Option PendingWrite) {w' : Wal}
      → w.sending ≡ sending
      → send_now sending w ≡ some w'
      → IsKept crc rs w
      → IsKept crc rs w'
  unfolding send_now
  send_now-IsKept w none is e s = cc
  send_now-IsKept {rs} w (some p) {w'} is e s =
      let done : record w { queue = w.queue ++ (p ∷ []); sending = none } ≡ w' =
        ground (arith, e) in
      let this = subst (λ o. All (IsNumbered rs) (in_sending o)) is s.sent in
      subst (IsKept crc rs) done (
        moved s refl refl refl refl (All-append (IsNumbered rs) w.queue (p ∷ []) s.queued this) tt
          s.batch s.held)

  Step-IsKept :
      {Allowed : Disk → Type 0} {rs : List Record} {w w' : Wal} {label : Option Record}
      → Step crc Allowed w label w'
      → IsKept crc rs w
      → IsKept crc (note label rs) w'
  unfolding send_request close_queue worker_step
  Step-IsKept (append r free live small) s = append-IsKept crc r live small s
  Step-IsKept {w = w} (send e) s = send_now-IsKept w w.sending refl e s
  Step-IsKept {rs = rs} {w = w} (close free) s =
      if_elim (IsKept crc rs) w.closed (λ shut. s)
        (λ live.
          moved s refl refl refl refl s.queued s.sent
            (elim s.batch [ inl h ↦ inl (refl, h.1) | inr all ↦ inr all ]) s.held)
  Step-IsKept {w = w} (work disk good e) s = worker_next-IsKept w disk w.worker refl e s

  Run-IsKept :
      {Allowed : Disk → Type 0} (contents : Bytes) {rs : List Record} {w : Wal}
      → Run crc Allowed (open_wal contents) rs w
      → IsKept crc rs w
  Run-IsKept contents here = open_wal-IsKept contents
  Run-IsKept contents (next run step) = Step-IsKept step (Run-IsKept contents run)

  -- A log is opened on any file, the disk may fail at any write and any sync, and calls of `Append`
  -- and `Close` and the goroutine's steps come in any order. Then for each number that was answered
  -- with success, the encoded bytes of the record that was appended under it are in the part of the
  -- file that is synced.
  pub Run-stored :
      (Allowed : Disk → Type 0) (contents : Bytes) (rs : List Record) {w : Wal} (i n : ℕ)
      → Run crc Allowed (open_wal contents) rs w
      → get_elem? w.answers i ≡ some (n, durable)
      → (k : ℕ) × (r : Record) × (n ≡ k + 1)
        × (get_elem? rs k ≡ some r)
        × Holds (encode crc r) w.synced
  Run-stored Allowed contents rs {w} i n run there =
      let s = Run-IsKept contents run in
      All-get_elem? (λ (x : ℕ × Answer). x.1 ≡ durable → IsStored crc rs w.synced x.0) w.answers i
        s.stored there refl
