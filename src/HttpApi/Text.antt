-- ===== src/HttpApi/Text.antt =====
-- What the handlers use of Go's packages strings, strconv and fmt, on strings as lists of bytes.
pub mod Numbers
pub mod Paths
use Prim.Native.Char.{code}
use Prim.Native.String.{String}
use distributed_fault_tolera.Prelude.{
  ℕ, zero, suc, ◌+◌, ◌-◌, ◌*◌, ◌/◌, ◌%◌, ◌^◌, Bytes, List, [], ◌∷◌, Bool, true, false, ◌||◌, Option,
  none, some, ℤ, pos, negsuc, ltb, leb, ◌==◌, if◌then◌else◌,
}

abbrev pub codes : String → Bytes
codes String.[] = []
codes (String.◌∷◌ c s) = code c ∷ codes s

-- The rest of a text behind a prefix, if it has the prefix.
unfoldable pub after_prefix : Bytes → Bytes → Option Bytes
after_prefix [] s = some s
after_prefix (c ∷ p) [] = none
after_prefix (c ∷ p) (d ∷ s) = let rest = after_prefix p s in if c == d then rest else none

abbrev pub or_else {ℓ} : {A : Type ℓ} → A → Option A → A
or_else a none = a
or_else a (some b) = b

-- `strings.TrimPrefix`
unfoldable pub trim_prefix : Bytes → Bytes → Bytes
trim_prefix p s = or_else s (after_prefix p s)

pub push_first : ℕ → List Bytes → List Bytes
push_first c [] = (c ∷ []) ∷ []
push_first c (part ∷ parts) = (c ∷ part) ∷ parts

-- `strings.Split` at the slashes.
unfoldable pub split_slash : Bytes → List Bytes
unfolding push_first
split_slash [] = [] ∷ []
split_slash (c ∷ s) = let rest = split_slash s in if c == b'/' then [] ∷ rest else push_first c rest

-- The number that digits spell behind `n`.
unfoldable pub scan_digits : Bytes → ℕ → Option ℕ
scan_digits [] n = some n
scan_digits (c ∷ s) n =
    let rest = scan_digits s (n * 10 + (c - b'0')) in
    if ltb c b'0' || ltb b'9' c then none else rest

-- A magnitude with its sign, where it is an `int`.
pub signed : Bool → Option ℕ → Option ℤ
signed negative none = none
signed false (some n) = if ltb n (2 ^ 63) then some (pos n) else none
signed true (some zero) = some (pos 0)
signed true (some (suc n)) = if ltb n (2 ^ 63) then some (negsuc n) else none

pub digits_only : Bytes → Option ℕ
digits_only [] = none
digits_only (c ∷ s) = scan_digits (c ∷ s) 0

-- `strconv.Atoi`, `none` for an error.
unfoldable pub atoi : Bytes → Option ℤ
unfolding signed digits_only
atoi [] = none
atoi (c ∷ s) =
    if c == b'-'
    then signed true (digits_only s)
    else if c == b'+'
    then signed false (digits_only s)
    else signed false (digits_only (c ∷ s))

-- The decimal digits of `n` before `out`, in rounds.
unfoldable pub digits : ℕ → ℕ → Bytes → Bytes
digits zero n out = out
digits (suc fuel) n out =
    let shorter = digits fuel (n / 10) ((b'0' + n % 10) ∷ out) in
    if ltb n 10 then (b'0' + n) ∷ out else shorter

-- `%d` of an `int`, which has at most 19 digits.
unfoldable pub show_int : ℤ → Bytes
show_int (pos n) = digits 20 n []
show_int (negsuc n) = b'-' ∷ digits 20 (n + 1) []
