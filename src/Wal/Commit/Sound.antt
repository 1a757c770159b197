-- ===== src/Wal/Commit/Sound.antt =====
-- What the log file and its synced part hold of the records that were appended, and that the
-- goroutine's writes, syncs and answers keep it so.
use mathlib.Core.List.{append_assoc, append-nil}
use distributed_fault_tolera.Prelude.{
  ℕ, ◌+◌, ◌<◌, ◌^◌, Bytes, List, [], ◌∷◌, ◌++◌, Bool, false, none, some, ◌≡◌, ◌⊎◌, inl, inr, refl,
  ap, sym, ◌∙◌, arith, subst, if_false, length, length-append, inc,
}
use distributed_fault_tolera.Wal.Codec.{Record, encode}
use distributed_fault_tolera.Wal.Replay.Recovery.{encode_all}
use distributed_fault_tolera.Wal.Commit.{
  PendingWrite, Answer, durable, write_failed, Worker, writing, answering, Wal, Disk, open_wal,
  write_one, sync_batch, write_next, answer_next, begin_append,
}
use distributed_fault_tolera.Wal.Commit.Numbers.{
  number, number-append, number-first, answer_all, answer_all-append, Works, encode_all-append,
  encode_items, encode_items-append,
}
use distributed_fault_tolera.Prelude.{if◌then◌else◌}
use distributed_fault_tolera.Wal.Commit.Parts.{
  batch_of, in_file, in_synced, parts_of, IsGood, in_sending, unanswered, IsCollecting, IsHung,
}

module _ (crc : Bytes → ℕ) (start : Bytes) where
  -- Of the records that were appended, the first ones were answered, each with success; the others
  -- wait, with the numbers that follow. The file and its synced part hold the answered ones, whole
  -- and in order, and behind them those of the batch that were written or synced.
  pub record IsSound (rs : List Record) (w : Wal) : Type 0 where
    pub front : List Record
    pub rest : List Record
    pub all : rs ≡ front ++ rest
    pub held : w.contents ≡ (start ++ encode_all crc front) ++ encode_items crc (in_file w.worker)
    pub safe : w.synced ≡ (start ++ encode_all crc front) ++ encode_items crc (in_synced w.worker)
    pub good : IsGood w.worker
    pub numbered : w.next_seq ≡ length rs
    pub answered : w.answers ≡ answer_all durable (number 0 front)
    pub waits : IsHung w ⊎ (unanswered w ≡ number (length front) rest)

  pub open_wal-IsSound : IsSound [] (open_wal start)
  unfolding open_wal number answer_all encode_all encode_items
  open_wal-IsSound = record {
    front = [];
    rest = [];
    all = refl;
    held = sym (append-nil (start ++ []) ∙ append-nil start);
    safe = sym (append-nil (start ++ []) ∙ append-nil start);
    good = tt;
    numbered = refl;
    answered = refl;
    waits = inr refl;
  }

  -- A step that moves requests on, and stores nothing.
  pub moved :
      {rs : List Record} {w w' : Wal}
      → IsSound rs w
      → w'.contents ≡ w.contents
      → w'.synced ≡ w.synced
      → w'.next_seq ≡ w.next_seq
      → w'.answers ≡ w.answers
      → parts_of w'.worker ≡ parts_of w.worker
      → IsGood w'.worker
      → (IsHung w → IsHung w')
      → IsHung w' ⊎ (unanswered w' ≡ unanswered w)
      → IsSound rs w'
  moved {rs} {w} {w'} s same_contents same_synced same_seq same_answers parts good hung order =
      let base = start ++ encode_all crc s.front in
      record {
        front = s.front;
        rest = s.rest;
        all = s.all;
        held =
            same_contents
            ∙ s.held
            ∙ ap (λ (x : List PendingWrite × List PendingWrite). base ++ encode_items crc x.0)
                (sym parts);
        safe =
            same_synced
            ∙ s.safe
            ∙ ap (λ (x : List PendingWrite × List PendingWrite). base ++ encode_items crc x.1)
                (sym parts);
        good = good;
        numbered = same_seq ∙ s.numbered;
        answered = same_answers ∙ s.answered;
        waits = elim s.waits [
          | inl h ↦ inl (hung h)
          | inr e ↦ elim order [ inl h ↦ inl h | inr f ↦ inr (f ∙ e) ]
        ];
      }

  pub append-IsSound :
      {rs : List Record} {w : Wal} (r : Record)
      → w.sending ≡ none
      → w.closed ≡ false
      → w.next_seq + 1 < 2 ^ 64
      → IsSound rs w
      → IsSound (rs ++ (r ∷ [])) (begin_append r w).0
  unfolding begin_append number
  append-IsSound {rs} {w} r free live small s =
      let n = inc w.next_seq in
      let k = length s.front in
      let p : PendingWrite = record { item = r; seq = n } in
      let longer = ap length s.all ∙ length-append s.front s.rest in
      let number_new : n ≡ k + length s.rest + 1 = omega (arith, small, s.numbered, longer) in
      let next_number : n ≡ length (rs ++ (r ∷ [])) =
        omega (arith, small, s.numbered, length-append rs (r ∷ [])) in
      let no_room = sym (append-nil w.queue) ∙ ap (λ o. w.queue ++ in_sending o) (sym free) in
      let begun : (w' : Wal)
          → w' ≡ record w { next_seq = n; sending = some p }
          → IsSound (rs ++ (r ∷ [])) w' =
        λ w' e. subst (IsSound (rs ++ (r ∷ []))) (sym e) (record {
          front = s.front;
          rest = s.rest ++ (r ∷ []);
          all = ap (λ xs. xs ++ (r ∷ [])) s.all ∙ append_assoc s.front s.rest (r ∷ []);
          held = s.held;
          safe = s.safe;
          good = s.good;
          numbered = next_number;
          answered = s.answered;
          waits = elim s.waits [
            | inl h ↦ absurd (ground (arith, h, live))
            | inr e ↦ inr (
                sym (append_assoc (batch_of w.worker) w.queue (p ∷ []))
                ∙ ap (λ ps. ps ++ (p ∷ [])) (ap (λ q. batch_of w.worker ++ q) no_room ∙ e)
                ∙ ap (λ m. number k s.rest ++ (record { item = r; seq = m } ∷ [])) number_new
                ∙ sym (number-append k s.rest (r ∷ [])))
          ];
        }) in
      begun (begin_append r w).0 (ap (λ (o : Wal × Bool). o.0) (if_false (w, false) live))

  -- The requests that wait, where the goroutine does not collect.
  waiting_at :
      {rs : List Record} {w : Wal} {at : Worker} (s : IsSound rs w)
      → w.worker ≡ at
      → ¬ IsCollecting at
      → batch_of at ++ (w.queue ++ in_sending w.sending) ≡ number (length s.front) s.rest
  waiting_at {w = w} s at other = elim s.waits [
    | inl h ↦ absurd (other (subst IsCollecting at h.1))
    | inr e ↦ ap (λ x. batch_of x ++ (w.queue ++ in_sending w.sending)) (sym at) ∙ e
  ]

  pub write_next-IsSound :
      {rs : List Record} {w : Wal} (disk : Disk) (done left : List PendingWrite)
      → Works disk
      → w.worker ≡ writing done left
      → IsSound rs w
      → IsSound rs (write_next crc disk done left w)
  unfolding write_next sync_batch write_one encode_items
  write_next-IsSound {rs} {w} disk done [] (_, syncs) at s =
      let behind = w.queue ++ in_sending w.sending in
      let base = start ++ encode_all crc s.front in
      let held = s.held ∙ ap (λ x. base ++ encode_items crc (in_file x)) at in
      let after : IsSound rs (record w { synced = w.contents; worker = answering durable done }) =
        record {
          front = s.front;
          rest = s.rest;
          all = s.all;
          held = held;
          safe = held;
          good = refl;
          numbered = s.numbered;
          answered = s.answered;
          waits = inr (ap (λ b. b ++ behind) (sym (append-nil done)) ∙ waiting_at s at (λ c. c));
        } in
      subst (λ ok. IsSound rs (sync_batch ok done w)) (sym syncs) after
  write_next-IsSound {rs} {w} disk done (p ∷ ps) (takes, _) at s =
      let behind = w.queue ++ in_sending w.sending in
      let base = start ++ encode_all crc s.front in
      let bytes = encode crc p.item in
      let after : IsSound rs
          (record w { contents = w.contents ++ bytes; worker = writing (done ++ (p ∷ [])) ps }) =
        record {
          front = s.front;
          rest = s.rest;
          all = s.all;
          held =
              ap (λ c. c ++ bytes) (s.held ∙ ap (λ x. base ++ encode_items crc (in_file x)) at)
              ∙ append_assoc base (encode_items crc done) bytes
              ∙ ap (λ b. base ++ (encode_items crc done ++ b)) (sym (append-nil bytes))
              ∙ ap (λ b. base ++ b) (sym (encode_items-append crc done (p ∷ [])));
          safe = s.safe ∙ ap (λ x. base ++ encode_items crc (in_synced x)) at;
          good = tt;
          numbered = s.numbered;
          answered = s.answered;
          waits =
              inr
                (ap (λ b. b ++ behind) (append_assoc done (p ∷ []) ps) ∙ waiting_at s at (λ c. c));
        } in
      subst
        (λ o.
          let (contents, ok) = write_one o bytes w.contents in
          IsSound rs (record w {
            contents = contents;
            worker =
                if ok
                then writing (done ++ (p ∷ [])) ps
                else answering write_failed (done ++ (p ∷ ps));
          }))
        (sym takes) after

  pub answer_next-IsSound :
      {rs : List Record} {w : Wal} (a : Answer) (left : List PendingWrite)
      → w.worker ≡ answering a left
      → IsSound rs w
      → IsSound rs (answer_next a left w)
  unfolding answer_next
  answer_next-IsSound {rs} {w} a [] at s =
      moved s refl refl refl refl (ap parts_of (sym at)) tt
        (λ h. absurd (subst IsCollecting at h.1))
        (inr (ap (λ x. batch_of x ++ (w.queue ++ in_sending w.sending)) (sym at)))
  answer_next-IsSound {rs} {w} a (p ∷ ps) at s =
      let k = length s.front in
      let (r, back, whole, this, others) =
        number-first k s.rest p (ps ++ (w.queue ++ in_sending w.sending))
          (waiting_at s at (λ c. c)) in
      let base = start ++ encode_all crc s.front in
      let more = encode_items crc ps in
      let longer : length (s.front ++ (r ∷ [])) ≡ k + 1 =
        omega (arith, length-append s.front (r ∷ [])) in
      let success : a ≡ durable = subst IsGood at s.good in
      let moved_on : base ++ encode_items crc (p ∷ ps)
          ≡ (start ++ encode_all crc (s.front ++ (r ∷ []))) ++ more =
        one_more s.front r p ps (ap (λ q. q.item) this) in
      record {
        front = s.front ++ (r ∷ []);
        rest = back;
        all = s.all ∙ ap (λ xs. s.front ++ xs) whole ∙ sym (append_assoc s.front (r ∷ []) back);
        held = s.held ∙ ap (λ x. base ++ encode_items crc (in_file x)) at ∙ moved_on;
        safe = s.safe ∙ ap (λ x. base ++ encode_items crc (in_synced x)) at ∙ moved_on;
        good = success;
        numbered = s.numbered;
        answered =
            ap (λ l. l ++ ((p.seq, a) ∷ [])) s.answered
            ∙ ap (λ l. answer_all durable (number 0 s.front) ++ (l ∷ []))
                (answer_same r p k success this)
            ∙ sym (next_answer s.front r);
        waits = inr (others ∙ ap (λ n. number n back) (sym longer));
      }
    where
      one_more :
          (front : List Record) (r : Record) (p : PendingWrite) (ps : List PendingWrite)
          → p.item ≡ r
          → (start ++ encode_all crc front) ++ encode_items crc (p ∷ ps)
            ≡ (start ++ encode_all crc (front ++ (r ∷ []))) ++ encode_items crc ps
      one_more front r p ps e =
          unfold encode_all encode_items in
          ap (λ i. (start ++ encode_all crc front) ++ (encode crc i ++ encode_items crc ps)) e
          ∙ sym (append_assoc (start ++ encode_all crc front) (encode crc r) (encode_items crc ps))
          ∙ ap (λ b. b ++ encode_items crc ps)
              (append_assoc start (encode_all crc front) (encode crc r))
          ∙ ap (λ b. (start ++ (encode_all crc front ++ b)) ++ encode_items crc ps)
              (sym (append-nil (encode crc r)))
          ∙ ap (λ b. (start ++ b) ++ encode_items crc ps)
              (sym (encode_all-append crc front (r ∷ [])))

      answer_same :
          (r : Record) (p : PendingWrite) (k : ℕ)
          → a ≡ durable
          → p ≡ record { item = r; seq = k + 1 }
          → ◌≡◌ {A = ℕ × Answer} (p.seq, a) (k + 1, durable)
      answer_same r p k e this = cc (e, ap (λ q. q.seq) this)

      next_answer :
          (front : List Record) (r : Record)
          → answer_all durable (number 0 (front ++ (r ∷ [])))
            ≡ answer_all durable (number 0 front) ++ ((length front + 1, durable) ∷ [])
      next_answer front r =
          unfold answer_all number in
          ap (answer_all durable) (number-append 0 front (r ∷ []))
          ∙ answer_all-append durable (number 0 front) (number (0 + length front) (r ∷ []))
          ∙ ap (λ n. answer_all durable (number 0 front) ++ ((n, durable) ∷ [])) (omega arith)
