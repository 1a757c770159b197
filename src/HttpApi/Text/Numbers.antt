-- ===== src/HttpApi/Text/Numbers.antt =====
-- A number that is printed is read back.
use distributed_fault_tolera.Prelude.{
  ℕ, zero, suc, ◌+◌, ◌*◌, ◌/◌, ◌%◌, ◌≤◌, ◌<◌, ◌^◌, Bytes, [], ◌∷◌, true, false, some, ◌≡◌, refl, ap,
  sym, ◌∙◌, arith, ℤ, pos, negsuc, IsInt, All, ltb, if_elim,
}
use distributed_fault_tolera.HttpApi.Text.{scan_digits, signed, digits_only, atoi, digits, show_int}

abbrev pub IsDigit : ℕ → Type 0
IsDigit c = (b'0' ≤ c) × (c ≤ b'9')

abbrev power_of_ten : ℕ → ℕ
power_of_ten zero = 1
power_of_ten (suc n) = 10 * power_of_ten n

scan_digits-digits :
    (fuel n : ℕ) (out : Bytes)
    → n < power_of_ten fuel
    → scan_digits (digits fuel n out) 0 ≡ scan_digits out n
unfolding scan_digits digits
scan_digits-digits zero n out h = ap (scan_digits out) (omega (arith, h))
scan_digits-digits (suc fuel) n out h =
    let low : n / 10 < power_of_ten fuel = omega (arith, h) in
    ground (arith, scan_digits-digits fuel (n / 10) ((b'0' + n % 10) ∷ out) low)

abbrev pub Starts : Bytes → Type 0
Starts b = (c : ℕ) × (s : Bytes) × (b ≡ c ∷ s) × IsDigit c

digits-Starts : (fuel n : ℕ) (out : Bytes) → Starts out → Starts (digits fuel n out)
unfolding digits
digits-Starts zero n out h = h
digits-Starts (suc fuel) n out h =
    if_elim Starts (ltb n 10) (λ small. (b'0' + n, out, refl, ground (arith, small)))
      (λ _.
        digits-Starts fuel (n / 10) ((b'0' + n % 10) ∷ out) (b'0' + n % 10, out, refl, omega arith))

-- The digits of a number are at least one.
pub digits-cons : (fuel n : ℕ) → Starts (digits (suc fuel) n [])
unfolding digits
digits-cons fuel n =
    if_elim Starts (ltb n 10) (λ small. (b'0' + n, [], refl, ground (arith, small)))
      (λ _.
        digits-Starts fuel (n / 10) ((b'0' + n % 10) ∷ []) (b'0' + n % 10, [], refl, omega arith))

pub digits-All : (fuel n : ℕ) (out : Bytes) → All IsDigit out → All IsDigit (digits fuel n out)
unfolding digits
digits-All zero n out h = h
digits-All (suc fuel) n out h =
    if_elim (All IsDigit) (ltb n 10) (λ small. (ground (arith, small), h))
      (λ _. digits-All fuel (n / 10) ((b'0' + n % 10) ∷ out) (omega arith, h))

digits_only-digits : (n : ℕ) → n < 2 ^ 64 → digits_only (digits 20 n []) ≡ some n
unfolding digits_only scan_digits
digits_only-digits n small =
    let (c, s, e, d) = digits-cons 19 n in
    ap digits_only e
    ∙ ap (λ b. scan_digits b 0) (sym e)
    ∙ scan_digits-digits 20 n [] (omega (arith, small))

atoi_of_digit : (c : ℕ) (s : Bytes) → IsDigit c → atoi (c ∷ s) ≡ signed false (digits_only (c ∷ s))
unfolding atoi
atoi_of_digit c s d = ground (arith, d)

atoi_of_minus : (s : Bytes) → atoi (b'-' ∷ s) ≡ signed true (digits_only s)
unfolding atoi
atoi_of_minus s = refl

-- Every `int` is read back from its print.
pub atoi-show_int : (k : ℤ) → IsInt k → atoi (show_int k) ≡ some k
unfolding show_int signed
atoi-show_int (pos n) small =
    let (c, s, e, d) = digits-cons 19 n in
    ap atoi e
    ∙ atoi_of_digit c s d
    ∙ ap (λ b. signed false (digits_only b)) (sym e)
    ∙ ap (signed false) (digits_only-digits n (omega (arith, small)))
    ∙ ground (arith, small)
atoi-show_int (negsuc n) small =
    let up : n + 1 ≡ suc n = omega arith in
    atoi_of_minus (digits 20 (n + 1) [])
    ∙ ap (signed true) (digits_only-digits (n + 1) (omega (arith, small)) ∙ ap some up)
    ∙ ground (arith, small)

pub show_int_inj : (a b : ℤ) → IsInt a → IsInt b → show_int a ≡ show_int b → a ≡ b
show_int_inj a b p q e =
    let same : some a ≡ some b = sym (atoi-show_int a p) ∙ ap atoi e ∙ atoi-show_int b q in cc

pub show_int-cons : (k : ℤ) → (c : ℕ) × (s : Bytes) × (show_int k ≡ c ∷ s) × (c < b'a')
unfolding show_int
show_int-cons (pos n) = let (c, s, e, d) = digits-cons 19 n in (c, s, e, omega (arith, d))
show_int-cons (negsuc n) = (b'-', digits 20 (n + 1) [], refl, omega arith)
