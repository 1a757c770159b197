-- ===== src/Wal/Commit/Durable.antt =====
-- Whatever the order of the steps, the log file holds the records that were appended, in order.
use mathlib.Core.List.{append_assoc, append-nil}
use distributed_fault_tolera.Prelude.{
  ℕ, ◌+◌, ◌^◌, Bytes, List, [], ◌∷◌, ◌++◌, Option, none, some, ◌≡◌, inl, inr, refl, ap, sym, ◌∙◌,
  arith, subst, if_elim, ◌%◌, length, inc,
}
use distributed_fault_tolera.Wal.Codec.{Record}
use distributed_fault_tolera.Wal.Commit.{
  PendingWrite, Worker, waiting, collecting, counting, writing, answering, ended, Wal, Disk,
  open_wal, write_next, answer_next, send_now, send_request, close_queue, receive_first,
  receive_more, count_batch, worker_next, worker_step, Step, append, send, close, work, Run, here,
  next, note,
}
use distributed_fault_tolera.Wal.Commit.Numbers.{Works}
use distributed_fault_tolera.Wal.Commit.Parts.{batch_of, parts_of, in_sending, IsCollecting, IsHung}
use distributed_fault_tolera.Wal.Commit.Sound.{
  IsSound, open_wal-IsSound, moved, append-IsSound, write_next-IsSound, answer_next-IsSound,
}

module _ (crc : Bytes → ℕ) (start : Bytes) where
  not-IsHung : (w : Wal) {at : Worker} → ¬ IsCollecting at → w.worker ≡ at → ¬ IsHung w
  not-IsHung w other e h = other (subst IsCollecting e h.1)

  receive_first-IsSound :
      {rs : List Record} (w : Wal) (queue : List PendingWrite) {w' : Wal}
      → w.worker ≡ waiting
      → w.queue ≡ queue
      → receive_first queue w ≡ some w'
      → IsSound crc start rs w
      → IsSound crc start rs w'
  unfolding receive_first
  receive_first-IsSound {rs} w [] {w'} at first e s =
      let done : record w { worker = ended } ≡ w' = ground (arith, e) in
      subst (IsSound crc start rs) done (
        moved crc start s refl refl refl refl (ap parts_of (sym at)) tt
          (λ h. absurd (not-IsHung w (λ c. c) at h))
          (inr (ap (λ x. batch_of x ++ (w.queue ++ in_sending w.sending)) (sym at))))
  receive_first-IsSound {rs} w (p ∷ ps) {w'} at first e s =
      let done : record w { queue = ps; worker = collecting (p ∷ []) } ≡ w' = ground (arith, e) in
      subst (IsSound crc start rs) done (
        moved crc start s refl refl refl refl (ap parts_of (sym at)) tt
          (λ h. absurd (not-IsHung w (λ c. c) at h))
          (inr (
            ap (λ q. q ++ in_sending w.sending) (sym first)
            ∙ ap (λ x. batch_of x ++ (w.queue ++ in_sending w.sending)) (sym at))))

  receive_more-IsSound :
      {rs : List Record} (w : Wal) (batch queue : List PendingWrite)
      → w.worker ≡ collecting batch
      → w.queue ≡ queue
      → IsSound crc start rs w
      → IsSound crc start rs (receive_more batch queue w)
  unfolding receive_more
  receive_more-IsSound {rs} w batch [] at first s =
      if_elim (IsSound crc start rs) w.closed
        (λ shut.
          moved crc start s refl refl refl refl (ap parts_of (sym at)) tt (λ h. (shut, tt))
            (inl (shut, tt)))
        (λ live.
          moved crc start s refl refl refl refl (ap parts_of (sym at)) tt
            (λ h. absurd (ground (arith, h, live)))
            (inr (ap (λ x. batch_of x ++ (w.queue ++ in_sending w.sending)) (sym at))))
  receive_more-IsSound {rs} w batch (p ∷ ps) at first s =
      moved crc start s refl refl refl refl (ap parts_of (sym at)) tt (λ h. (h.0, tt))
        (inr (
          append_assoc batch (p ∷ []) (ps ++ in_sending w.sending)
          ∙ ap (λ q. batch ++ (q ++ in_sending w.sending)) (sym first)
          ∙ ap (λ x. batch_of x ++ (w.queue ++ in_sending w.sending)) (sym at)))

  count_batch-IsSound :
      {rs : List Record} (w : Wal) (batch : List PendingWrite) (sending : Option PendingWrite)
      {w' : Wal}
      → w.worker ≡ counting batch
      → count_batch batch sending w ≡ some w'
      → IsSound crc start rs w
      → IsSound crc start rs w'
  unfolding count_batch
  count_batch-IsSound w batch (some p) at e s = cc
  count_batch-IsSound {rs} w batch none {w'} at e s =
      let done : record w {
        batch_count = inc w.batch_count;
        total_records = (w.total_records + length batch) % 2 ^ 64;
        worker = writing [] batch;
      }
          ≡ w' =
        ground (arith, e) in
      subst (IsSound crc start rs) done (
        moved crc start s refl refl refl refl (ap parts_of (sym at)) tt
          (λ h. absurd (not-IsHung w (λ c. c) at h))
          (inr (ap (λ x. batch_of x ++ (w.queue ++ in_sending w.sending)) (sym at))))

  -- The steps of the goroutine.
  worker_next-IsSound :
      {rs : List Record} (w : Wal) {w' : Wal} (disk : Disk) (at : Worker)
      → Works disk
      → w.worker ≡ at
      → worker_next crc at disk w ≡ some w'
      → IsSound crc start rs w
      → IsSound crc start rs w'
  unfolding worker_next
  worker_next-IsSound w disk waiting good at e s = receive_first-IsSound w w.queue at refl e s
  worker_next-IsSound w {w'} disk (collecting batch) good at e s =
      let same : receive_more batch w.queue w ≡ w' = ground (arith, e) in
      subst (IsSound crc start _) same (receive_more-IsSound w batch w.queue at refl s)
  worker_next-IsSound w disk (counting batch) good at e s =
      count_batch-IsSound w batch w.sending at e s
  worker_next-IsSound w {w'} disk (writing done left) good at e s =
      let same : write_next crc disk done left w ≡ w' = ground (arith, e) in
      subst (IsSound crc start _) same (write_next-IsSound crc start disk done left good at s)
  worker_next-IsSound w {w'} disk (answering a left) good at e s =
      let same : answer_next a left w ≡ w' = ground (arith, e) in
      subst (IsSound crc start _) same (answer_next-IsSound crc start a left at s)
  worker_next-IsSound w disk ended good at e s = cc

  send_now-IsSound :
      {rs : List Record} (w : Wal) (sending : Option PendingWrite) {w' : Wal}
      → w.sending ≡ sending
      → send_now sending w ≡ some w'
      → IsSound crc start rs w
      → IsSound crc start rs w'
  unfolding send_now
  send_now-IsSound w none is e s = cc
  send_now-IsSound {rs} w (some p) {w'} is e s =
      let done : record w { queue = w.queue ++ (p ∷ []); sending = none } ≡ w' =
        ground (arith, e) in
      let order =
        append_nil_right (w.queue ++ (p ∷ [])) ∙ ap (λ o. w.queue ++ in_sending o) (sym is) in
      subst (IsSound crc start rs) done (
        moved crc start s refl refl refl refl refl s.good (λ h. h)
          (inr (ap (λ q. batch_of w.worker ++ q) order)))
    where
      append_nil_right : (q : List PendingWrite) → q ++ [] ≡ q
      append_nil_right q = append-nil q

  Step-IsSound :
      {rs : List Record} {w w' : Wal} {label : Option Record}
      → Step crc Works w label w'
      → IsSound crc start rs w
      → IsSound crc start (note label rs) w'
  unfolding send_request close_queue worker_step
  Step-IsSound (append r free live small) s = append-IsSound crc start r free live small s
  Step-IsSound {w = w} (send e) s = send_now-IsSound w w.sending refl e s
  Step-IsSound {w = w} (close free) s =
      if_elim (IsSound crc start _) w.closed (λ shut. s)
        (λ live. moved crc start s refl refl refl refl refl s.good (λ h. (refl, h.1)) (inr refl))
  Step-IsSound {w = w} (work disk good e) s = worker_next-IsSound w disk w.worker good refl e s

  pub Run-IsSound :
      {rs : List Record} {w : Wal} → Run crc Works (open_wal start) rs w → IsSound crc start rs w
  Run-IsSound here = open_wal-IsSound crc start
  Run-IsSound (next run step) = Step-IsSound step (Run-IsSound run)
