-- ===== src/Wal/Commit/Kept.antt =====
-- What holds of the file, of its synced part and of the answers, whatever the disk does, and that the
-- goroutine's writes, syncs and answers keep it.
use mathlib.Core.List.{append_assoc, append-nil}
use distributed_fault_tolera.Prelude.{
  ℕ, ◌+◌, ◌<◌, ◌^◌, Bytes, List, [], ◌∷◌, ◌++◌, Bool, true, false, some, ◌≡◌, ◌⊎◌, inl, inr, ap,
  sym, ◌∙◌, arith, subst, if_false, length, length-append, inc, get_elem?, get_elem?-append,
  get_elem?-append_left, get_elem?-lt, All, All-append, All-map, if◌then◌else◌, take,
}
use distributed_fault_tolera.Wal.Codec.{Record, encode}
use distributed_fault_tolera.Wal.Commit.{
  PendingWrite, Answer, durable, write_failed, Worker, writing, answering, Wal, WriteOutcome,
  written, write_error, write_one, sync_batch, answer_next, begin_append,
}
use distributed_fault_tolera.Wal.Commit.Parts.{batch_of, in_sending, IsCollecting, IsHung}

-- The bytes stand somewhere in the file.
abbrev pub Holds : Bytes → Bytes → Type 0
Holds bytes file = (before after : Bytes) × (file ≡ before ++ (bytes ++ after))

Holds-append : (bytes file more : Bytes) → Holds bytes file → Holds bytes (file ++ more)
Holds-append bytes file more (before, after, e) = (
  before,
  after ++ more,
  ap (λ c. c ++ more) e
      ∙ append_assoc before (bytes ++ after) more
      ∙ ap (λ c. before ++ c) (append_assoc bytes after more),
)

Holds-end : (bytes file : Bytes) → Holds bytes (file ++ bytes)
Holds-end bytes file = (file, [], ap (λ c. file ++ c) (sym (append-nil bytes)))

-- The request has the record that was appended under its number.
abbrev pub IsNumbered : List Record → PendingWrite → Type 0
IsNumbered rs p = (k : ℕ) × (p.seq ≡ k + 1) × (get_elem? rs k ≡ some p.item)

IsNumbered-append :
    (rs : List Record) (r : Record) (p : PendingWrite)
    → IsNumbered rs p
    → IsNumbered (rs ++ (r ∷ [])) p
IsNumbered-append rs r p (k, e, there) =
    (k, e, get_elem?-append_left rs (r ∷ []) k (get_elem?-lt rs k there) ∙ there)

module _ (crc : Bytes → ℕ) where
  -- The record that was appended under the number is synced.
  abbrev pub IsStored : List Record → Bytes → ℕ → Type 0
  IsStored rs synced n =
      (k : ℕ) × (r : Record) × (n ≡ k + 1) × (get_elem? rs k ≡ some r) × Holds (encode crc r) synced

  -- The data of the requests are in the file.
  abbrev pub AllHeld : Bytes → List PendingWrite → Type 0
  AllHeld file ps = All (λ (p : PendingWrite). Holds (encode crc p.item) file) ps

  -- What was written of the batch is in the file, and what is answered with success is synced.
  abbrev pub HasData : Worker → Bytes → Bytes → Type 0
  HasData (writing done left) file synced = AllHeld file done
  HasData (answering a left) file synced = a ≡ durable → AllHeld synced left
  HasData _ file synced = Unit

  abbrev pub AllStored : List Record → Bytes → List (ℕ × Answer) → Type 0
  AllStored rs synced answers =
      All (λ (x : ℕ × Answer). x.1 ≡ durable → IsStored rs synced x.0) answers

  pub record IsKept (rs : List Record) (w : Wal) : Type 0 where
    pub tail : Bytes
    pub file : w.contents ≡ w.synced ++ tail
    pub numbered : w.next_seq ≡ length rs
    pub queued : All (IsNumbered rs) w.queue
    pub sent : All (IsNumbered rs) (in_sending w.sending)
    pub batch : IsHung w ⊎ All (IsNumbered rs) (batch_of w.worker)
    pub held : HasData w.worker w.contents w.synced
    pub stored : AllStored rs w.synced w.answers

  pub append-IsKept :
      {rs : List Record} {w : Wal} (r : Record)
      → w.closed ≡ false
      → w.next_seq + 1 < 2 ^ 64
      → IsKept rs w
      → IsKept (rs ++ (r ∷ [])) (begin_append r w).0
  unfolding begin_append
  append-IsKept {rs} {w} r live small s =
      let n = inc w.next_seq in
      let p : PendingWrite = record { item = r; seq = n } in
      let longer = IsNumbered-append rs r in
      let up : n ≡ length rs + 1 = omega (arith, small, s.numbered) in
      let last : get_elem? (rs ++ (r ∷ [])) (length rs) ≡ some r =
        get_elem?-append rs (r ∷ []) 0 (length rs) (omega arith) in
      let after : IsKept (rs ++ (r ∷ [])) (record w { next_seq = n; sending = some p }) = record {
        tail = s.tail;
        file = s.file;
        numbered = omega (arith, up, length-append rs (r ∷ []));
        queued = All-map (IsNumbered rs) w.queue longer s.queued;
        sent = ((length rs, up, last), tt);
        batch = elim s.batch [
          | inl h ↦ inl h
          | inr all ↦ inr (All-map (IsNumbered rs) (batch_of w.worker) longer all)
        ];
        held = s.held;
        stored =
            All-map (λ (x : ℕ × Answer). x.1 ≡ durable → IsStored rs w.synced x.0) w.answers
              (λ x f e.
                let (k, r', at, there, holds) = f e in
                (
                  k,
                  r',
                  at,
                  get_elem?-append_left rs (r ∷ []) k (get_elem?-lt rs k there) ∙ there,
                  holds,
                ))
              s.stored;
      } in
      subst (λ (o : Wal × Bool). IsKept (rs ++ (r ∷ [])) o.0) (sym (if_false (w, false) live)) after

  -- The requests that are taken, where the goroutine does not collect.
  pub batch_at :
      {rs : List Record} {w : Wal} {at : Worker}
      → IsKept rs w
      → w.worker ≡ at
      → ¬ IsCollecting at
      → All (IsNumbered rs) (batch_of at)
  batch_at {rs} s at other = elim s.batch [
    | inl h ↦ absurd (other (subst IsCollecting at h.1))
    | inr all ↦ subst (λ x. All (IsNumbered rs) (batch_of x)) at all
  ]

  pub sync_batch-IsKept :
      {rs : List Record} {w : Wal} (ok : Bool) (done : List PendingWrite)
      → w.worker ≡ writing done []
      → IsKept rs w
      → IsKept rs (sync_batch ok done w)
  unfolding sync_batch
  sync_batch-IsKept {rs} {w} true done at s =
      let all = subst (All (IsNumbered rs)) (append-nil done) (batch_at s at (λ c. c)) in
      record {
        tail = [];
        file = sym (append-nil w.contents);
        numbered = s.numbered;
        queued = s.queued;
        sent = s.sent;
        batch = inr all;
        held = λ e. subst (λ x. HasData x w.contents w.synced) at s.held;
        stored =
            All-map (λ (x : ℕ × Answer). x.1 ≡ durable → IsStored rs w.synced x.0) w.answers
              (λ x f e.
                let (k, r, number, there, holds) = f e in
                (
                  k,
                  r,
                  number,
                  there,
                  subst (Holds (encode crc r)) (sym s.file)
                      (Holds-append (encode crc r) w.synced s.tail holds),
                ))
              s.stored;
      }
  sync_batch-IsKept {rs} {w} false done at s =
      let all = subst (All (IsNumbered rs)) (append-nil done) (batch_at s at (λ c. c)) in
      record {
        tail = s.tail;
        file = s.file;
        numbered = s.numbered;
        queued = s.queued;
        sent = s.sent;
        batch = inr all;
        held = λ e. ground (arith, e);
        stored = s.stored;
      }

  pub write_one-IsKept :
      {rs : List Record} {w : Wal} (o : WriteOutcome) (done : List PendingWrite) (p : PendingWrite)
      (ps : List PendingWrite)
      → w.worker ≡ writing done (p ∷ ps)
      → IsKept rs w
      → let (contents, ok) = write_one o (encode crc p.item) w.contents in
        IsKept rs (record w {
          contents = contents;
          worker =
              if ok
              then writing (done ++ (p ∷ [])) ps
              else answering write_failed (done ++ (p ∷ ps));
        })
  unfolding write_one
  write_one-IsKept {rs} {w} written done p ps at s =
      let bytes = encode crc p.item in
      let before : AllHeld w.contents done = subst (λ x. HasData x w.contents w.synced) at s.held in
      let longer =
        All-map (λ (q : PendingWrite). Holds (encode crc q.item) w.contents) done
          (λ q. Holds-append (encode crc q.item) w.contents bytes) before in
      record {
        tail = s.tail ++ bytes;
        file = ap (λ c. c ++ bytes) s.file ∙ append_assoc w.synced s.tail bytes;
        numbered = s.numbered;
        queued = s.queued;
        sent = s.sent;
        batch = inr (
            subst (All (IsNumbered rs)) (sym (append_assoc done (p ∷ []) ps))
              (batch_at s at (λ c. c)));
        held =
            All-append (λ (q : PendingWrite). Holds (encode crc q.item) (w.contents ++ bytes)) done
              (p ∷ []) longer (Holds-end bytes w.contents, tt);
        stored = s.stored;
      }
  write_one-IsKept {rs} {w} (write_error k) done p ps at s =
      let bytes = take k (encode crc p.item) in
      record {
        tail = s.tail ++ bytes;
        file = ap (λ c. c ++ bytes) s.file ∙ append_assoc w.synced s.tail bytes;
        numbered = s.numbered;
        queued = s.queued;
        sent = s.sent;
        batch = inr (batch_at s at (λ c. c));
        held = λ e. ground (arith, e);
        stored = s.stored;
      }

  pub answer_next-IsKept :
      {rs : List Record} {w : Wal} (a : Answer) (left : List PendingWrite)
      → w.worker ≡ answering a left
      → IsKept rs w
      → IsKept rs (answer_next a left w)
  unfolding answer_next
  answer_next-IsKept {rs} {w} a [] at s = record {
    tail = s.tail;
    file = s.file;
    numbered = s.numbered;
    queued = s.queued;
    sent = s.sent;
    batch = inr tt;
    held = tt;
    stored = s.stored;
  }
  answer_next-IsKept {rs} {w} a (p ∷ ps) at s =
      let ((k, number, there), others) = batch_at s at (λ c. c) in
      let synced : a ≡ durable → AllHeld w.synced (p ∷ ps) =
        subst (λ x. HasData x w.contents w.synced) at s.held in
      record {
        tail = s.tail;
        file = s.file;
        numbered = s.numbered;
        queued = s.queued;
        sent = s.sent;
        batch = inr others;
        held = λ e. (synced e).1;
        stored =
            All-append (λ (x : ℕ × Answer). x.1 ≡ durable → IsStored rs w.synced x.0) w.answers
              ((p.seq, a) ∷ []) s.stored (λ e. (k, p.item, number, there, (synced e).0), tt);
      }
