-- ===== src/Prelude/Lists.antt =====
-- Lists measured and indexed by native numbers, under the library's names.
use Prim.Native.Nat.{ℕ, zero, suc, ◌+◌, ◌-◌, ◌≤◌, ◌<◌}
use mathlib.Core.Path.{◌≡◌, refl, ap, sym, ◌∙◌, subst}
use mathlib.Core.List.{List, [], ◌∷◌, ◌++◌}
use mathlib.Core.Option.{Option, none, some}
use native.Mathlib.Omega.{arith}

module _ {ℓ} {A : Type ℓ} where
  abbrev pub length : List A → ℕ
  length [] = 0
  length (x ∷ xs) = suc (length xs)

  abbrev pub get_elem? : List A → ℕ → Option A
  get_elem? [] i = none
  get_elem? (x ∷ xs) zero = some x
  get_elem? (x ∷ xs) (suc i) = get_elem? xs i

  abbrev pub take : ℕ → List A → List A
  take zero xs = []
  take (suc n) [] = []
  take (suc n) (x ∷ xs) = x ∷ take n xs

  abbrev pub drop : ℕ → List A → List A
  drop zero xs = xs
  drop (suc n) [] = []
  drop (suc n) (x ∷ xs) = drop n xs

  abbrev pub All {κ} : (A → Type κ) → List A → Type κ
  All P [] = Unit {κ}
  All P (x ∷ xs) = P x × All P xs

module _ {ℓ} {A : Type ℓ} where
  pub length-append : (xs ys : List A) → length (xs ++ ys) ≡ length xs + length ys
  length-append [] ys = omega arith
  length-append (x ∷ xs) ys = omega (arith, length-append xs ys)

  pub take-append-drop : (n : ℕ) (xs : List A) → take n xs ++ drop n xs ≡ xs
  take-append-drop zero xs = refl
  take-append-drop (suc n) [] = refl
  take-append-drop (suc n) (x ∷ xs) = ap (λ r. x ∷ r) (take-append-drop n xs)

  pub length-take : (n : ℕ) (xs : List A) → n ≤ length xs → length (take n xs) ≡ n
  length-take zero xs h = refl
  length-take (suc n) [] h = elim h [ ]
  length-take (suc n) (x ∷ xs) h = ap suc (length-take n xs (omega arith))

  pub length-drop : (n : ℕ) (xs : List A) → length (drop n xs) ≡ length xs - n
  length-drop zero xs = omega arith
  length-drop (suc n) [] = omega arith
  length-drop (suc n) (x ∷ xs) = omega (arith, length-drop n xs)

  -- Reading, cutting and skipping at the seam of an append.
  pub get_elem?-append :
      (xs ys : List A) (i n : ℕ) → n ≡ length xs + i → get_elem? (xs ++ ys) n ≡ get_elem? ys i
  get_elem?-append [] ys i n e = ap (get_elem? ys) (omega arith)
  get_elem?-append (x ∷ xs) ys i zero e = absurd (omega arith)
  get_elem?-append (x ∷ xs) ys i (suc n) e = get_elem?-append xs ys i n (omega arith)

  pub get_elem?-append_left :
      (xs ys : List A) (n : ℕ) → n < length xs → get_elem? (xs ++ ys) n ≡ get_elem? xs n
  get_elem?-append_left [] ys n h = elim h [ ]
  get_elem?-append_left (x ∷ xs) ys zero h = refl
  get_elem?-append_left (x ∷ xs) ys (suc n) h = get_elem?-append_left xs ys n (omega arith)

  pub take-append : (xs ys : List A) (n : ℕ) → n ≡ length xs → take n (xs ++ ys) ≡ xs
  take-append [] ys zero e = refl
  take-append [] ys (suc n) e = absurd (omega arith)
  take-append (x ∷ xs) ys zero e = absurd (omega arith)
  take-append (x ∷ xs) ys (suc n) e = ap (λ r. x ∷ r) (take-append xs ys n (omega arith))

  pub drop-append : (xs ys : List A) (n : ℕ) → n ≡ length xs → drop n (xs ++ ys) ≡ ys
  drop-append [] ys zero e = refl
  drop-append [] ys (suc n) e = absurd (omega arith)
  drop-append (x ∷ xs) ys zero e = absurd (omega arith)
  drop-append (x ∷ xs) ys (suc n) e = drop-append xs ys n (omega arith)

  pub get_elem?-eq_none : (xs : List A) (n : ℕ) → length xs ≤ n → get_elem? xs n ≡ none
  get_elem?-eq_none [] n h = refl
  get_elem?-eq_none (x ∷ xs) zero h = elim h [ ]
  get_elem?-eq_none (x ∷ xs) (suc n) h = get_elem?-eq_none xs n (omega arith)

  pub get_elem?-eq_some :
      (xs : List A) (n : ℕ) → n < length xs → (a : A) × (get_elem? xs n ≡ some a)
  get_elem?-eq_some [] n h = elim h [ ]
  get_elem?-eq_some (x ∷ xs) zero h = (x, refl)
  get_elem?-eq_some (x ∷ xs) (suc n) h = get_elem?-eq_some xs n (omega arith)

  pub get_elem?-drop :
      (xs : List A) (n : ℕ) {a : A} → get_elem? xs n ≡ some a → drop n xs ≡ a ∷ drop (suc n) xs
  get_elem?-drop [] n h = cc
  get_elem?-drop (x ∷ xs) zero h = cc
  get_elem?-drop (x ∷ xs) (suc n) h = get_elem?-drop xs n h

  pub get_elem?-take : (xs : List A) (n i : ℕ) → i < n → get_elem? (take n xs) i ≡ get_elem? xs i
  get_elem?-take xs zero i h = elim h [ ]
  get_elem?-take [] (suc n) i h = refl
  get_elem?-take (x ∷ xs) (suc n) zero h = refl
  get_elem?-take (x ∷ xs) (suc n) (suc i) h = get_elem?-take xs n i (omega arith)

  pub drop-eq_nil : (xs : List A) (n : ℕ) → length xs ≤ n → drop n xs ≡ []
  drop-eq_nil [] zero h = refl
  drop-eq_nil [] (suc n) h = refl
  drop-eq_nil (x ∷ xs) zero h = elim h [ ]
  drop-eq_nil (x ∷ xs) (suc n) h = drop-eq_nil xs n (omega arith)

  pub take-length : (xs : List A) → take (length xs) xs ≡ xs
  take-length [] = refl
  take-length (x ∷ xs) = ap (λ r. x ∷ r) (take-length xs)

  take-nil : (n : ℕ) → take {A = A} n [] ≡ []
  take-nil zero = refl
  take-nil (suc n) = refl

  pub take-take : (a c : ℕ) (xs : List A) → a ≤ c → take a (take c xs) ≡ take a xs
  take-take zero c xs h = refl
  take-take (suc a) zero xs h = elim h [ ]
  take-take (suc a) (suc c) [] h = refl
  take-take (suc a) (suc c) (x ∷ xs) h = ap (λ r. x ∷ r) (take-take a c xs (omega arith))

  pub take-take-drop : (a k : ℕ) (xs : List A) → take a xs ++ take k (drop a xs) ≡ take (a + k) xs
  take-take-drop zero k xs = ap (λ n. take n xs) (omega arith)
  take-take-drop (suc a) k [] = take-nil k ∙ sym (take-nil (suc a + k))
  take-take-drop (suc a) k (x ∷ xs) =
      ap (λ r. x ∷ r) (take-take-drop a k xs) ∙ ap (λ n. take n (x ∷ xs)) (sum a k)
    where
      sum : (a k : ℕ) → suc (a + k) ≡ suc a + k
      sum a k = omega arith

  -- A prefix survives a splice behind `p` that agrees with the old list as far as the prefix goes.
  pub take-splice :
      (n p : ℕ) (xs ys : List A)
      → p ≤ length xs
      → take (n - p) ys ≡ take (n - p) (drop p xs)
      → take n (take p xs ++ ys) ≡ take n xs
  take-splice n zero xs ys h e = subst (λ k. take k ys ≡ take k xs) (omega arith) e
  take-splice n (suc p) [] ys h e = elim h [ ]
  take-splice zero (suc p) (x ∷ xs) ys h e = refl
  take-splice (suc n) (suc p) (x ∷ xs) ys h e =
      ap (λ r. x ∷ r)
        (take-splice n p xs ys (omega arith)
          (subst (λ k. take k ys ≡ take k (drop p xs)) (omega arith) e))

  pub get_elem?-lt : (xs : List A) (n : ℕ) {a : A} → get_elem? xs n ≡ some a → n < length xs
  get_elem?-lt [] n h = cc
  get_elem?-lt (x ∷ xs) zero h = omega arith
  get_elem?-lt (x ∷ xs) (suc n) h = omega (arith, get_elem?-lt xs n h)

  pub length-take_le : (n : ℕ) (xs : List A) → length (take n xs) ≤ length xs
  length-take_le zero xs = omega arith
  length-take_le (suc n) [] = omega arith
  length-take_le (suc n) (x ∷ xs) = omega (arith, length-take_le n xs)

  pub take-append_beyond :
      (xs ys : List A) (j n : ℕ) → n ≡ length xs + j → take n (xs ++ ys) ≡ xs ++ take j ys
  take-append_beyond [] ys j n e = ap (λ k. take k ys) (omega arith)
  take-append_beyond (x ∷ xs) ys j zero e = absurd (omega arith)
  take-append_beyond (x ∷ xs) ys j (suc n) e =
      ap (λ r. x ∷ r) (take-append_beyond xs ys j n (omega arith))

module _ {ℓ ℓ'} {A : Type ℓ} (P : A → Type ℓ') where
  pub All-append : (xs ys : List A) → All P xs → All P ys → All P (xs ++ ys)
  All-append [] ys all more = more
  All-append (x ∷ xs) ys (p, all) more = (p, All-append xs ys all more)

  pub All-get_elem? : (xs : List A) (n : ℕ) {a : A} → All P xs → get_elem? xs n ≡ some a → P a
  All-get_elem? [] n all e = cc
  All-get_elem? (x ∷ xs) zero {a} (p, all) e = let same : x ≡ a = cc in subst P same p
  All-get_elem? (x ∷ xs) (suc n) (p, all) e = All-get_elem? xs n all e

  pub All-map {ℓ''} : {Q : A → Type ℓ''} (xs : List A) → ((x : A) → P x → Q x) → All P xs → All Q xs
  All-map [] f all = tt
  All-map (x ∷ xs) f (p, all) = (f x p, All-map xs f all)
