-- ===== src/Wal/Commit/Doomed.antt =====
-- A log that is closed while requests wait, or while a batch is collected: its goroutine never ends.
use distributed_fault_tolera.Prelude.{
  ℕ, Bytes, List, [], ◌∷◌, true, false, Option, none, some, ◌≡◌, ◌≢◌, ◌⊎◌, inl, inr, refl, ap, sym,
  ◌∙◌, arith, subst, if_true,
}
use distributed_fault_tolera.Prelude.{Bool}
use distributed_fault_tolera.Wal.Codec.{Record}
use distributed_fault_tolera.Wal.Commit.{
  PendingWrite, Answer, Worker, waiting, collecting, counting, writing, answering, ended, Wal, Disk,
  write_one, sync_batch, write_next, answer_next, send_now, send_request, close_queue,
  receive_first, receive_more, count_batch, worker_next, worker_step, Step, append, send, close,
  work, Run, here, next,
}
use distributed_fault_tolera.Wal.Commit.Parts.{IsCollecting}

-- The log is closed, and the goroutine collects a batch or has one before it.
pub record IsDoomed (w : Wal) : Type 0 where
  pub closed : w.closed ≡ true
  pub free : w.sending ≡ none
  pub live : w.worker ≢ ended
  pub batch : IsCollecting w.worker ⊎ (w.queue ≢ [])

close_queue-closed : (w : Wal) → w.closed ≡ true → close_queue w ≡ w
unfolding close_queue
close_queue-closed w shut = if_true _ shut

module _ (crc : Bytes → ℕ) where
  receive_first-IsDoomed :
      (w : Wal) (queue : List PendingWrite) {w' : Wal}
      → w.queue ≡ queue
      → w.worker ≡ waiting
      → receive_first queue w ≡ some w'
      → IsDoomed w
      → IsDoomed w'
  unfolding receive_first
  receive_first-IsDoomed w [] is at e d = elim d.batch [
    | inl h ↦ absurd (subst IsCollecting at h)
    | inr h ↦ absurd (h is)
  ]
  receive_first-IsDoomed w (p ∷ ps) {w'} is at e d =
      let done : record w { queue = ps; worker = collecting (p ∷ []) } ≡ w' = ground (arith, e) in
      subst IsDoomed done
        (record { closed = d.closed; free = d.free; live = λ x. ground (arith, x); batch = inl tt })

  receive_more-IsDoomed :
      (w : Wal) (batch queue : List PendingWrite)
      → IsDoomed w
      → IsDoomed (receive_more batch queue w)
  unfolding receive_more
  receive_more-IsDoomed w batch [] d =
      subst IsDoomed (sym (if_true _ d.closed))
        (record { closed = d.closed; free = d.free; live = λ x. ground (arith, x); batch = inl tt })
  receive_more-IsDoomed w batch (p ∷ ps) d = record {
    closed = d.closed;
    free = d.free;
    live = λ x. ground (arith, x);
    batch = inl tt;
  }

  -- Where the goroutine does not collect, the queue that waits for it stays as it is.
  stays-IsDoomed :
      {w w' : Wal}
      → w'.closed ≡ w.closed
      → w'.sending ≡ w.sending
      → w'.queue ≡ w.queue
      → w'.worker ≢ ended
      → ¬ IsCollecting w.worker
      → IsDoomed w
      → IsDoomed w'
  stays-IsDoomed {w} {w'} same_closed same_sending same_queue live other d = record {
    closed = same_closed ∙ d.closed;
    free = same_sending ∙ d.free;
    live = live;
    batch = elim d.batch [ inl h ↦ absurd (other h) | inr h ↦ inr (λ e. h (sym same_queue ∙ e)) ];
  }

  count_batch-IsDoomed :
      (w : Wal) (batch : List PendingWrite) (sending : Option PendingWrite) {w' : Wal}
      → w.worker ≡ counting batch
      → count_batch batch sending w ≡ some w'
      → IsDoomed w
      → IsDoomed w'
  unfolding count_batch
  count_batch-IsDoomed w batch (some p) at e d = cc
  count_batch-IsDoomed w batch none {w'} at e d =
      let done = some-inj e in
      subst IsDoomed done (
        stays-IsDoomed {w = w} refl refl refl (λ x. ground (arith, x))
          (λ h. subst IsCollecting at h) d)
    where
      some-inj : {a b : Wal} → some a ≡ some b → a ≡ b
      some-inj h = cc

  sync_batch-IsDoomed :
      (w : Wal) (ok : Bool) (batch : List PendingWrite)
      → ¬ IsCollecting w.worker
      → IsDoomed w
      → IsDoomed (sync_batch ok batch w)
  unfolding sync_batch
  sync_batch-IsDoomed w true batch other d =
      stays-IsDoomed {w = w} refl refl refl (λ x. ground (arith, x)) other d
  sync_batch-IsDoomed w false batch other d =
      stays-IsDoomed {w = w} refl refl refl (λ x. ground (arith, x)) other d

  write_next-IsDoomed :
      (w : Wal) (disk : Disk) (done left : List PendingWrite)
      → w.worker ≡ writing done left
      → IsDoomed w
      → IsDoomed (write_next crc disk done left w)
  unfolding write_next
  write_next-IsDoomed w disk done [] at d =
      sync_batch-IsDoomed w disk.syncs done (λ h. subst IsCollecting at h) d
  write_next-IsDoomed w disk done (p ∷ ps) at d =
      stays-IsDoomed {w = w} refl refl refl (λ x. ground (arith, x)) (λ h. subst IsCollecting at h)
        d

  answer_next-IsDoomed :
      (w : Wal) (a : Answer) (left : List PendingWrite)
      → w.worker ≡ answering a left
      → IsDoomed w
      → IsDoomed (answer_next a left w)
  unfolding answer_next
  answer_next-IsDoomed w a [] at d =
      stays-IsDoomed {w = w} refl refl refl (λ x. ground (arith, x)) (λ h. subst IsCollecting at h)
        d
  answer_next-IsDoomed w a (p ∷ ps) at d =
      stays-IsDoomed {w = w} refl refl refl (λ x. ground (arith, x)) (λ h. subst IsCollecting at h)
        d

  worker_next-IsDoomed :
      (w : Wal) {w' : Wal} (disk : Disk) (at : Worker)
      → w.worker ≡ at
      → worker_next crc at disk w ≡ some w'
      → IsDoomed w
      → IsDoomed w'
  unfolding worker_next write_next answer_next sync_batch write_one
  worker_next-IsDoomed w disk waiting at e d = receive_first-IsDoomed w w.queue refl at e d
  worker_next-IsDoomed w {w'} disk (collecting batch) at e d =
      let same : receive_more batch w.queue w ≡ w' = ground (arith, e) in
      subst IsDoomed same (receive_more-IsDoomed w batch w.queue d)
  worker_next-IsDoomed w disk (counting batch) at e d =
      count_batch-IsDoomed w batch w.sending at e d
  worker_next-IsDoomed w {w'} disk (writing done left) at e d =
      let same : write_next crc disk done left w ≡ w' = ground (arith, e) in
      subst IsDoomed same (write_next-IsDoomed w disk done left at d)
  worker_next-IsDoomed w {w'} disk (answering a left) at e d =
      let same : answer_next a left w ≡ w' = ground (arith, e) in
      subst IsDoomed same (answer_next-IsDoomed w a left at d)
  worker_next-IsDoomed w disk ended at e d = cc

  Step-IsDoomed :
      {Allowed : Disk → Type 0} {w w' : Wal} {label : Option Record}
      → Step crc Allowed w label w'
      → IsDoomed w
      → IsDoomed w'
  unfolding send_request worker_step
  Step-IsDoomed {w = w} (append r free live small) d = absurd (ground (arith, d.closed, live))
  Step-IsDoomed {w = w} {w'} (send e) d =
      absurd (none_sent (ap (λ o. send_now o w) (sym d.free) ∙ e))
    where
      none_sent : send_now none w ≡ some w' → ⊥
      none_sent h = ground (arith, h)
  Step-IsDoomed {w = w} (close free) d = subst IsDoomed (sym (close_queue-closed w d.closed)) d
  Step-IsDoomed {w = w} (work disk good e) d = worker_next-IsDoomed w disk w.worker refl e d

  pub Run-IsDoomed :
      {Allowed : Disk → Type 0} {start w : Wal} {rs : List Record}
      → Run crc Allowed start rs w
      → IsDoomed start
      → IsDoomed w
  Run-IsDoomed here d = d
  Run-IsDoomed (next run step) d = Step-IsDoomed step (Run-IsDoomed run d)
