-- ===== src/Wal/Commit/Parts.antt =====
-- The requests of a batch by what has become of them: in the file, synced, answered.
use mathlib.Core.List.{append_assoc}
use distributed_fault_tolera.Prelude.{
  List, [], ◌∷◌, ◌++◌, Option, none, some, true, ◌≡◌, ◌≤◌, refl, sym, ◌∙◌, arith, length,
}
use distributed_fault_tolera.Wal.Commit.{
  PendingWrite, durable, Worker, waiting, collecting, counting, writing, answering, ended, Wal,
}

-- The requests that the goroutine has taken and not answered.
abbrev pub batch_of : Worker → List PendingWrite
batch_of waiting = []
batch_of (collecting b) = b
batch_of (counting b) = b
batch_of (writing done left) = done ++ left
batch_of (answering a left) = left
batch_of ended = []

-- Of these, the ones whose data are in the file.
abbrev pub in_file : Worker → List PendingWrite
in_file (writing done left) = done
in_file (answering a left) = left
in_file _ = []

-- Of these, the ones whose data are synced.
abbrev pub in_synced : Worker → List PendingWrite
in_synced (answering a left) = left
in_synced _ = []

abbrev pub parts_of : Worker → List PendingWrite × List PendingWrite
parts_of x = (in_file x, in_synced x)

-- The goroutine answers nothing but a success.
abbrev pub IsGood : Worker → Type 0
IsGood (answering a left) = a ≡ durable
IsGood _ = Unit

-- The goroutine neither writes nor answers a batch.
abbrev pub IsBetween : Worker → Type 0
IsBetween (writing done left) = ⊥
IsBetween (answering a left) = ⊥
IsBetween _ = Unit

abbrev pub in_sending : Option PendingWrite → List PendingWrite
in_sending none = []
in_sending (some p) = p ∷ []

-- The requests that wait for an answer, the oldest first.
abbrev pub unanswered : Wal → List PendingWrite
unanswered w = batch_of w.worker ++ (w.queue ++ in_sending w.sending)

abbrev pub IsCollecting : Worker → Type 0
IsCollecting (collecting b) = Unit
IsCollecting _ = ⊥

-- The log is closed while the goroutine collects a batch.
abbrev pub IsHung : Wal → Type 0
IsHung w = (w.closed ≡ true) × IsCollecting w.worker

pub parts-ordered : (x : Worker) → length (in_synced x) ≤ length (in_file x)
parts-ordered waiting = omega arith
parts-ordered (collecting b) = omega arith
parts-ordered (counting b) = omega arith
parts-ordered (writing done left) = omega arith
parts-ordered (answering a left) = omega arith
parts-ordered ended = omega arith

pub parts-between :
    (x : Worker) → IsBetween x → (length (in_synced x) ≡ 0) × (length (in_file x) ≡ 0)
parts-between waiting idle = (refl, refl)
parts-between (collecting b) idle = (refl, refl)
parts-between (counting b) idle = (refl, refl)
parts-between (writing done left) idle = absurd idle
parts-between (answering a left) idle = absurd idle
parts-between ended idle = (refl, refl)

-- What is in the file, and what is synced of it, comes first of what waits.
pub parts-first :
    (x : Worker) (behind all : List PendingWrite)
    → batch_of x ++ behind ≡ all
    → ((others : List PendingWrite) × (in_synced x ++ others ≡ all))
      × ((others : List PendingWrite) × (in_file x ++ others ≡ all))
parts-first waiting behind all e = ((all, refl), (all, refl))
parts-first (collecting b) behind all e = ((all, refl), (all, refl))
parts-first (counting b) behind all e = ((all, refl), (all, refl))
parts-first (writing done left) behind all e =
    ((all, refl), (left ++ behind, sym (append_assoc done left behind) ∙ e))
parts-first (answering a left) behind all e = ((behind, e), (behind, e))
parts-first ended behind all e = ((all, refl), (all, refl))

pub hung-first :
    (x : Worker) (all : List PendingWrite)
    → IsCollecting x
    → ((others : List PendingWrite) × (in_synced x ++ others ≡ all))
      × ((others : List PendingWrite) × (in_file x ++ others ≡ all))
hung-first (collecting b) all h = ((all, refl), (all, refl))
hung-first waiting all h = absurd h
hung-first (counting b) all h = absurd h
hung-first (writing done left) all h = absurd h
hung-first (answering a left) all h = absurd h
hung-first ended all h = absurd h
