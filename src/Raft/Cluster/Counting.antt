-- ===== src/Raft/Cluster/Counting.antt =====
-- Counting the nodes below `n` that pass a test.
use distributed_fault_tolera.Prelude.{
  ℕ, zero, suc, ◌+◌, ◌≤◌, ◌<◌, Bool, true, false, ◌≡◌, arith, ◌==◌, if◌then◌else◌, dec_lt, ap,
}

pub count_if : ℕ → (ℕ → Bool) → ℕ
count_if zero p = 0
count_if (suc n) p = if p n then count_if n p + 1 else count_if n p

pub count_if_mono :
    (n : ℕ) (p q : ℕ → Bool) → ((j : ℕ) → p j ≡ true → q j ≡ true) → count_if n p ≤ count_if n q
unfolding count_if
count_if_mono zero p q h = omega arith
count_if_mono (suc n) p q h = ground (arith, h n, count_if_mono n p q h)

-- Two tests that no node passes both.
pub count_if_disjoint :
    (n : ℕ) (p q : ℕ → Bool)
    → ((j : ℕ) → p j ≡ true → q j ≡ false)
    → count_if n p + count_if n q ≤ n
unfolding count_if
count_if_disjoint zero p q h = omega arith
count_if_disjoint (suc n) p q h = ground (arith, h n, count_if_disjoint n p q h)

count_if_same :
    (n i : ℕ) (p q : ℕ → Bool)
    → ((j : ℕ) → (i == j) ≡ false → p j ≡ q j)
    → n ≤ i
    → count_if n p ≡ count_if n q
unfolding count_if
count_if_same zero i p q h k = omega arith
count_if_same (suc n) i p q h k = ground (arith, h n, count_if_same n i p q h)

-- A test that one more node passes, and one on which nothing changes.
pub count_if_one_more :
    (n i : ℕ) (p q : ℕ → Bool)
    → ((j : ℕ) → (i == j) ≡ false → p j ≡ q j)
    → p i ≡ false
    → q i ≡ true
    → i < n
    → count_if n q ≡ count_if n p + 1
unfolding count_if
count_if_one_more zero i p q h off on k = elim k [ ]
count_if_one_more (suc n) i p q h off on k = elim (dec_lt i n) [
  | yes below ↦ ground (arith, h n, count_if_one_more n i p q h)
  | no last ↦ let e : i ≡ n = omega arith in ground (arith, ap p e, ap q e, count_if_same n i p q h)
]

pub count_if_ext : (n : ℕ) (p q : ℕ → Bool) → ((j : ℕ) → p j ≡ q j) → count_if n p ≡ count_if n q
unfolding count_if
count_if_ext zero p q h = omega arith
count_if_ext (suc n) p q h = ground (arith, h n, count_if_ext n p q h)

pub count_if_none : (n : ℕ) (p : ℕ → Bool) → ((j : ℕ) → p j ≡ false) → count_if n p ≡ 0
unfolding count_if
count_if_none zero p h = omega arith
count_if_none (suc n) p h = ground (arith, h n, count_if_none n p h)
