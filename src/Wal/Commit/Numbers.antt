-- ===== src/Wal/Commit/Numbers.antt =====
-- The requests of a log by the records and the numbers that they were given.
use mathlib.Core.List.{append_assoc}
use distributed_fault_tolera.Prelude.{
  ℕ, suc, ◌+◌, Bytes, List, [], ◌∷◌, ◌++◌, true, ◌≡◌, refl, ap, sym, ◌∙◌, arith, length,
}
use distributed_fault_tolera.Wal.Codec.{Record, encode}
use distributed_fault_tolera.Wal.Replay.Recovery.{encode_all}
use distributed_fault_tolera.Wal.Commit.{PendingWrite, Answer, written, Disk}

-- The requests for records that come behind the first `k` ones.
unfoldable pub number : ℕ → List Record → List PendingWrite
number k [] = []
number k (r ∷ rs) = record { item = r; seq = k + 1 } ∷ number (k + 1) rs

pub number-append :
    (k : ℕ) (xs ys : List Record) → number k (xs ++ ys) ≡ number k xs ++ number (k + length xs) ys
unfolding number
number-append k [] ys = ap (λ n. number n ys) (omega arith)
number-append k (x ∷ xs) ys =
    let same : k + 1 + length xs ≡ k + suc (length xs) = omega arith in
    ap (λ ps. record { item = x; seq = k + 1 } ∷ ps)
      (number-append (k + 1) xs ys ∙ ap (λ n. number (k + 1) xs ++ number n ys) same)

-- The records of the first part of some numbered requests, and those of the second.
pub record Split (k : ℕ) (rs : List Record) (b q : List PendingWrite) : Type 0 where
  pub front : List Record
  pub back : List Record
  pub whole : rs ≡ front ++ back
  pub first : b ≡ number k front
  pub second : q ≡ number (k + length front) back

pub number-Split :
    (k : ℕ) (rs : List Record) (b q : List PendingWrite) → b ++ q ≡ number k rs → Split k rs b q
unfolding number
number-Split k rs [] q e =
    let here : k ≡ k + 0 = omega arith in
    record {
      front = [];
      back = rs;
      whole = refl;
      first = refl;
      second = e ∙ ap (λ n. number n rs) here;
    }
number-Split k [] (p ∷ b) q e = cc
number-Split k (r ∷ rs) (p ∷ b) q e =
    let s = number-Split (k + 1) rs b q (cc) in
    let up : k + 1 + length s.front ≡ k + suc (length s.front) = omega arith in
    record {
      front = r ∷ s.front;
      back = s.back;
      whole = ap (λ xs. r ∷ xs) s.whole;
      first = cc (s.first, e);
      second = s.second ∙ ap (λ n. number n s.back) up;
    }

pub length-number : (k : ℕ) (rs : List Record) → length (number k rs) ≡ length rs
unfolding number
length-number k [] = refl
length-number k (r ∷ rs) = ap suc (length-number (k + 1) rs)

-- The first of some numbered requests, and the others.
pub number-first :
    (k : ℕ) (rs : List Record) (p : PendingWrite) (q : List PendingWrite)
    → p ∷ q ≡ number k rs
    → (r : Record) × (back : List Record) × (rs ≡ r ∷ back)
      × (p ≡ record { item = r; seq = k + 1 })
      × (q ≡ number (k + 1) back)
unfolding number
number-first k [] p q e = cc
number-first k (r ∷ rs) p q e = (r, rs, refl, cc, cc)

-- The answers to some requests, in their order.
unfoldable pub answer_all : Answer → List PendingWrite → List (ℕ × Answer)
answer_all a [] = []
answer_all a (p ∷ ps) = (p.seq, a) ∷ answer_all a ps

pub answer_all-append :
    (a : Answer) (ps qs : List PendingWrite)
    → answer_all a (ps ++ qs) ≡ answer_all a ps ++ answer_all a qs
unfolding answer_all
answer_all-append a [] qs = refl
answer_all-append a (p ∷ ps) qs = ap (λ r. (p.seq, a) ∷ r) (answer_all-append a ps qs)

-- A disk that takes the write and the sync.
abbrev pub Works : Disk → Type 0
Works disk = (disk.write ≡ written) × (disk.syncs ≡ true)

module _ (crc : Bytes → ℕ) where
  pub encode_all-append :
      (xs ys : List Record) → encode_all crc (xs ++ ys) ≡ encode_all crc xs ++ encode_all crc ys
  unfolding encode_all
  encode_all-append [] ys = refl
  encode_all-append (x ∷ xs) ys =
      ap (λ r. encode crc x ++ r) (encode_all-append xs ys)
      ∙ sym (append_assoc (encode crc x) (encode_all crc xs) (encode_all crc ys))

  -- The data of some requests.
  unfoldable pub encode_items : List PendingWrite → Bytes
  encode_items [] = []
  encode_items (p ∷ ps) = encode crc p.item ++ encode_items ps

  pub encode_items-append :
      (ps qs : List PendingWrite) → encode_items (ps ++ qs) ≡ encode_items ps ++ encode_items qs
  unfolding encode_items
  encode_items-append [] qs = refl
  encode_items-append (p ∷ ps) qs =
      ap (λ r. encode crc p.item ++ r) (encode_items-append ps qs)
      ∙ sym (append_assoc (encode crc p.item) (encode_items ps) (encode_items qs))

  pub encode_items-number :
      (k : ℕ) (rs : List Record) → encode_items (number k rs) ≡ encode_all crc rs
  unfolding encode_items number encode_all
  encode_items-number k [] = refl
  encode_items-number k (r ∷ rs) = ap (λ b. encode crc r ++ b) (encode_items-number (k + 1) rs)
