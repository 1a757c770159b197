-- ===== src/Prelude/GoInt.antt =====
-- Go's integers on a 64-bit platform: `uint64` as a native number below 2 ^ 64, `int` as an integer,
-- and the conversions between them, which keep the bit pattern.
use Prim.Native.Nat.{ℕ, ◌+◌, ◌-◌, ◌%◌, ◌^◌, ◌<◌}
use mathlib.Core.Path.{◌≡◌}
use mathlib.Core.Logic.{◌↔◌}
use mathlib.Core.Bool.{Bool, true, false}
use native.Mathlib.Omega.{arith}
use distributed_fault_tolera.Prelude.Tests.{ltb, ◌==◌, if◌then◌else◌}

-- `negsuc n` is -(n + 1).
pub data ℤ : Type 0 where
  pos : ℕ → ℤ
  negsuc : ℕ → ℤ

abbrev pub eq_ℤ : ℤ → ℤ → Bool
eq_ℤ (pos a) (pos b) = a == b
eq_ℤ (pos a) (negsuc b) = false
eq_ℤ (negsuc a) (pos b) = false
eq_ℤ (negsuc a) (negsuc b) = a == b

pub eq_ℤ_iff : (a b : ℤ) → (eq_ℤ a b ≡ true) ↔ (a ≡ b)
eq_ℤ_iff a b = ground arith

-- a < b
abbrev pub ltb_ℤ : ℤ → ℤ → Bool
ltb_ℤ (pos a) (pos b) = ltb a b
ltb_ℤ (pos a) (negsuc b) = false
ltb_ℤ (negsuc a) (pos b) = true
ltb_ℤ (negsuc a) (negsuc b) = ltb b a

-- The value that the source writes `-1`.
abbrev pub minus_one : ℤ
minus_one = negsuc 0

-- `x++` and `x + 1` on a `uint64`.
abbrev pub inc : ℕ → ℕ
inc n = (n + 1) % 2 ^ 64

-- `int(x)` of a `uint64`.
abbrev pub to_int : ℕ → ℤ
to_int n = if ltb n (2 ^ 63) then pos n else negsuc (2 ^ 64 - n - 1)

-- The values of an `int`.
abbrev pub IsInt : ℤ → Type 0
IsInt (pos n) = n < 2 ^ 63
IsInt (negsuc n) = n < 2 ^ 63

-- `uint64(x)` of an `int`.
abbrev pub to_uint : ℤ → ℕ
to_uint (pos n) = n % 2 ^ 64
to_uint (negsuc n) = (2 ^ 64 - 1 - n % 2 ^ 64) % 2 ^ 64

pub to_uint-to_int : (n : ℕ) → n < 2 ^ 64 → to_uint (to_int n) ≡ n
to_uint-to_int n h = ground arith
