-- ===== src/Wal/Commit/Deadlock.antt =====
-- `Append` waits for room in the queue with the mutex in its hands, and the goroutine, which makes
-- room, waits for the mutex.
use distributed_fault_tolera.Prelude.{
  ℕ, zero, suc, ◌+◌, ◌≤◌, ◌<◌, ◌^◌, Bytes, List, [], ◌∷◌, ◌++◌, Bool, true, false, Option, none,
  some, ◌≡◌, ◌≢◌, refl, ap, sym, ◌∙◌, arith, subst, if_true, if_false, length, length-append,
  lt→ltb, inc,
}
use distributed_fault_tolera.Wal.Codec.{Record}
use distributed_fault_tolera.Wal.Commit.{
  PendingWrite, counting, Wal, Disk, capacity, open_wal, begin_append, send_now, send_request,
  receive_first, receive_more, count_batch, worker_next, worker_step, Step, append, send, close,
  work, Run, here, next,
}

-- The queue is full, a call of `Append` holds the mutex, and the goroutine is about to count.
record IsLocked (w : Wal) : Type 0 where
  pub batch : List PendingWrite
  pub request : PendingWrite
  pub counts : w.worker ≡ counting batch
  pub holds : w.sending ≡ some request
  pub full : length w.queue ≡ capacity

-- The goroutine is about to count, and `n` requests are in the queue.
record IsFilling (n : ℕ) (w : Wal) : Type 0 where
  pub batch : List PendingWrite
  pub counts : w.worker ≡ counting batch
  pub free : w.sending ≡ none
  pub open_yet : w.closed ≡ false
  pub count : length w.queue ≡ n
  pub numbers : w.next_seq ≡ n + 1

module _ (crc : Bytes → ℕ) (Allowed : Disk → Type 0) where
  no_send :
      (w w' : Wal) (p : PendingWrite) → length w.queue ≡ capacity → send_now (some p) w ≢ some w'
  unfolding send_now
  no_send w w' p full e = ground (arith, full, e)

  IsLocked-Step : {w w' : Wal} {label : Option Record} → IsLocked w → ¬ Step crc Allowed w label w'
  unfolding send_request worker_step worker_next count_batch
  IsLocked-Step d (append r free live small) = ground (arith, d.holds, free)
  IsLocked-Step {w = w} {w' = w'} d (send e) =
      no_send w w' d.request d.full (ap (λ o. send_now o w) (sym d.holds) ∙ e)
  IsLocked-Step d (close free) = ground (arith, d.holds, free)
  IsLocked-Step {w = w} d (work disk good e) =
      let stuck =
        ap (λ x. worker_next crc x disk w) d.counts ∙ ap (λ o. count_batch d.batch o w) d.holds in
      ground (arith, stuck, e)

  -- A call of `Append` gets the mutex.
  append-begun :
      {start w : Wal} {rs : List Record} {n : ℕ} (r : Record)
      → Run crc Allowed start rs w
      → n + 2 < 2 ^ 64
      → IsFilling n w
      → let p : PendingWrite = record { item = r; seq = n + 2 } in
        Run crc Allowed start (rs ++ (r ∷ [])) (record w { next_seq = n + 2; sending = some p })
  unfolding begin_append
  append-begun {start} {w} {rs} {n} r run small f =
      let up : inc w.next_seq ≡ n + 2 = omega (arith, f.numbers, small) in
      let begun : begin_append r w ≡ (
        record w { next_seq = n + 2; sending = some (record { item = r; seq = n + 2 }) },
        true,
      ) =
        if_false (w, false) f.open_yet
        ∙ ap (λ k. (record w { next_seq = k; sending = some (record { item = r; seq = k }) }, true))
            up in
      subst (Run crc Allowed start (rs ++ (r ∷ []))) (ap (λ (o : Wal × Bool). o.0) begun)
        (next run (append r f.free f.open_yet (omega (arith, f.numbers, small))))

  -- Calls of `Append` fill the queue while the goroutine is about to count.
  fill :
      {start : Wal} (r : Record) (n : ℕ)
      → n ≤ capacity
      → (rs : List Record) × (w : Wal) × Run crc Allowed start rs w × IsFilling 0 w
      → (rs : List Record) × (w : Wal) × Run crc Allowed start rs w × IsFilling n w
  unfolding send_request send_now
  fill r zero few from = from
  fill {start} r (suc n) few from =
      let (rs, w, run, f) = fill r n (omega arith) from in
      let p : PendingWrite = record { item = r; seq = n + 2 } in
      let w₁ : Wal = record w { next_seq = n + 2; sending = some p } in
      let w₂ : Wal = record w₁ { queue = w.queue ++ (p ∷ []); sending = none } in
      let begun = append-begun r run (omega (arith, few)) f in
      let room : send_request w₁ ≡ some w₂ =
        if_true none (lt→ltb (length w.queue) capacity (omega (arith, f.count, few))) in
      (
        rs ++ (r ∷ []),
        w₂,
        next begun (send room),
        record {
          batch = f.batch;
          counts = f.counts;
          free = refl;
          open_yet = f.open_yet;
          count = omega (arith, length-append w.queue (p ∷ []), f.count);
          numbers = omega arith;
        },
      )

  -- The goroutine takes one request, and is about to count it.
  first_batch :
      (contents : Bytes) (disk : Disk) (r : Record)
      → Allowed disk
      → (rs : List Record) × (w : Wal) × Run crc Allowed (open_wal contents) rs w × IsFilling 0 w
  unfolding open_wal begin_append send_request send_now worker_step worker_next receive_first
      receive_more
  first_batch contents disk r good =
      let p : PendingWrite = record { item = r; seq = 1 } in
      let w₀ = open_wal contents in
      let w₁ : Wal = record w₀ { next_seq = 1; queue = p ∷ [] } in
      (
        r ∷ [],
        record w₀ { next_seq = 1; worker = counting (p ∷ []) },
        next
            (next (next {w' = w₁} (next here (append r refl refl (omega arith))) (send refl))
              (work disk good refl))
            (work disk good refl),
        record {
          batch = p ∷ [];
          counts = refl;
          free = refl;
          open_yet = refl;
          count = refl;
          numbers = refl;
        },
      )

  -- A log that is opened on any file can come, by calls of `Append` and steps of the goroutine
  -- alone, to a state that is not closed and in which nothing can ever happen again.
  pub Run-deadlock :
      (contents : Bytes) (disk : Disk) (r : Record)
      → Allowed disk
      → (rs : List Record) × (w : Wal) × Run crc Allowed (open_wal contents) rs w
        × (w.closed ≡ false)
        × ((label : Option Record) (w' : Wal) → ¬ Step crc Allowed w label w')
  Run-deadlock contents disk r good =
      let (rs, w, run, f) = fill r capacity (omega arith) (first_batch contents disk r good) in
      let p : PendingWrite = record { item = r; seq = capacity + 2 } in
      let locked : IsLocked (record w { next_seq = capacity + 2; sending = some p }) = record {
        batch = f.batch;
        request = p;
        counts = f.counts;
        holds = refl;
        full = f.count;
      } in
      (
        rs ++ (r ∷ []),
        record w { next_seq = capacity + 2; sending = some p },
        append-begun r run (omega arith) f,
        f.open_yet,
        λ label w' step. IsLocked-Step locked step,
      )
