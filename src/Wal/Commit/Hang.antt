-- ===== src/Wal/Commit/Hang.antt =====
-- When the goroutine of a log that is closed comes to its end.
use distributed_fault_tolera.Prelude.{
  ℕ, Bytes, List, [], ◌∷◌, true, false, none, some, ◌≡◌, ◌≢◌, ◌⊎◌, ◌↔◌, inl, inr, refl, ap, sym,
  ◌∙◌, arith, subst, if_true, if_false,
}
use distributed_fault_tolera.Prelude.{Bool, ◌++◌, Bool-cases}
use distributed_fault_tolera.Wal.Codec.{Record, encode}
use distributed_fault_tolera.Wal.Commit.{
  PendingWrite, Answer, durable, write_failed, sync_failed, Worker, waiting, collecting, counting,
  writing, answering, ended, Wal, Disk, write_one, sync_batch, write_next, answer_next, close_queue,
  receive_first, count_batch, worker_next, worker_step, work, Run, here, next,
}
use distributed_fault_tolera.Wal.Commit.Parts.{IsCollecting}
use distributed_fault_tolera.Wal.Commit.Doomed.{IsDoomed, Run-IsDoomed}

module _ (crc : Bytes → ℕ) where
  -- The goroutine has reached its end in some run from `start`.
  abbrev pub Ends : (Disk → Type 0) → Wal → Type 0
  Ends Allowed start =
      (rs : List Record) × (w : Wal) × Run crc Allowed start rs w × (w.worker ≡ ended)

  module _ (Allowed : Disk → Type 0) (disk : Disk) (allowed : Allowed disk) where
    waiting-Ends :
        {start w : Wal} {rs : List Record}
        → Run crc Allowed start rs w
        → w.worker ≡ waiting
        → w.queue ≡ []
        → w.closed ≡ true
        → Ends Allowed start
    unfolding worker_step worker_next receive_first
    waiting-Ends {w = w} {rs} run at empty shut =
        let step : worker_step crc disk w ≡ some (record w { worker = ended }) =
          ap (λ x. worker_next crc x disk w) at
          ∙ ap (λ q. receive_first q w) empty
          ∙ if_true none shut in
        (rs, record w { worker = ended }, next run (work disk allowed step), refl)

    answering-Ends :
        {start w : Wal} {rs : List Record} (a : Answer) (left : List PendingWrite)
        → Run crc Allowed start rs w
        → w.worker ≡ answering a left
        → w.queue ≡ []
        → w.closed ≡ true
        → Ends Allowed start
    unfolding worker_step worker_next answer_next
    answering-Ends {w = w} a [] run at empty shut =
        let step : worker_step crc disk w ≡ some (answer_next a [] w) =
          ap (λ x. worker_next crc x disk w) at in
        waiting-Ends (next run (work disk allowed step)) refl empty shut
    answering-Ends {w = w} a (p ∷ ps) run at empty shut =
        let step : worker_step crc disk w ≡ some (answer_next a (p ∷ ps) w) =
          ap (λ x. worker_next crc x disk w) at in
        answering-Ends a ps (next run (work disk allowed step)) refl empty shut

    synced-Ends :
        {start w : Wal} {rs : List Record} (done : List PendingWrite) (ok : Bool)
        → Run crc Allowed start rs w
        → worker_step crc disk w ≡ some (sync_batch ok done w)
        → w.queue ≡ []
        → w.closed ≡ true
        → Ends Allowed start
    unfolding sync_batch
    synced-Ends done true run step empty shut =
        answering-Ends durable done (next run (work disk allowed step)) refl empty shut
    synced-Ends done false run step empty shut =
        answering-Ends sync_failed done (next run (work disk allowed step)) refl empty shut

    -- Whatever the disk does, the goroutine comes to the answers of a batch.
    writing-Ends :
        {start : Wal} (done left : List PendingWrite) {w : Wal} {rs : List Record}
        → Run crc Allowed start rs w
        → w.worker ≡ writing done left
        → w.queue ≡ []
        → w.closed ≡ true
        → Ends Allowed start
    unfolding worker_step worker_next write_next
    writing-Ends done [] {w} run at empty shut =
        synced-Ends done disk.syncs run (ap (λ x. worker_next crc x disk w) at) empty shut
    writing-Ends done (p ∷ ps) {w} run at empty shut =
        let step : worker_step crc disk w ≡ some (write_next crc disk done (p ∷ ps) w) =
          ap (λ x. worker_next crc x disk w) at in
        let moved = next run (work disk allowed step) in
        let (_, ok) = write_one disk.write (encode crc p.item) w.contents in
        elim (Bool-cases ok) [
          | inl e ↦ writing-Ends (done ++ (p ∷ [])) ps moved (if_true _ e) empty shut
          | inr e ↦ answering-Ends write_failed (done ++ (p ∷ ps)) moved (if_false _ e) empty shut
        ]

    counting-Ends :
        {start w : Wal} {rs : List Record} (batch : List PendingWrite)
        → Run crc Allowed start rs w
        → w.worker ≡ counting batch
        → w.sending ≡ none
        → w.queue ≡ []
        → w.closed ≡ true
        → Ends Allowed start
    unfolding worker_step worker_next count_batch
    counting-Ends {w = w} batch run at free empty shut =
        let step = ap (λ x. worker_next crc x disk w) at ∙ ap (λ o. count_batch batch o w) free in
        writing-Ends [] batch (next run (work disk allowed step)) refl empty shut

    Ends-cases :
        {start w : Wal} {rs : List Record} (at : Worker)
        → Run crc Allowed start rs w
        → w.worker ≡ at
        → ¬ IsCollecting at
        → at ≢ ended
        → w.sending ≡ none
        → w.queue ≡ []
        → w.closed ≡ true
        → Ends Allowed start
    Ends-cases waiting run at other live free empty shut = waiting-Ends run at empty shut
    Ends-cases (collecting batch) run at other live free empty shut = absurd (other tt)
    Ends-cases (counting batch) run at other live free empty shut =
        counting-Ends batch run at free empty shut
    Ends-cases (writing done left) run at other live free empty shut =
        writing-Ends done left run at empty shut
    Ends-cases (answering a left) run at other live free empty shut =
        answering-Ends a left run at empty shut
    Ends-cases ended run at other live free empty shut = absurd (live refl)

    closing : (w : Wal) → w.closed ≡ false → close_queue w ≡ record w { closed = true }
    unfolding close_queue
    closing w open_yet = if_false w open_yet

    queue-cases :
        (w : Wal) (queue : List PendingWrite) → w.queue ≡ queue → (w.queue ≡ []) ⊎ (w.queue ≢ [])
    queue-cases w [] e = inl e
    queue-cases w (p ∷ ps) e = inr (λ empty. ground (arith, e, empty))

    -- `Close` is called while the mutex is free and the goroutine runs. The goroutine, for which
    -- `Close` waits, can come to its end exactly when no request is in the queue and the goroutine
    -- is not in the loop that collects a batch. Otherwise it never does, whatever happens.
    pub close_queue-Ends_iff :
        (w : Wal)
        → w.closed ≡ false
        → w.sending ≡ none
        → w.worker ≢ ended
        → Ends Allowed (close_queue w) ↔ ((w.queue ≡ []) × ¬ IsCollecting w.worker)
    close_queue-Ends_iff w open_yet free live =
        let shut = closing w open_yet in
        let doomed : (IsCollecting w.worker ⊎ (w.queue ≢ [])) → IsDoomed (close_queue w) = λ b.
          subst IsDoomed (sym shut)
            (record { closed = refl; free = free; live = live; batch = b }) in
        (
          λ ends.
              let (_, _, run, at_end) = ends in
              (
                elim (queue-cases w w.queue refl) [
                  | inl empty ↦ empty
                  | inr full ↦ absurd ((Run-IsDoomed crc run (doomed (inr full))).live at_end)
                ],
                λ h. (Run-IsDoomed crc run (doomed (inl h))).live at_end,
              ),
          λ idle. subst (Ends Allowed) (sym shut) (
              Ends-cases {w = record w { closed = true }} w.worker here refl idle.1 live free idle.0
                refl),
        )
