-- ===== src/Prelude/Assoc.antt =====
-- A Go map as an association list over a key type with a Boolean equality. The order of the list
-- stands for the order in which a `range` visits the map.
use distributed_fault_tolera.Prelude.Tests.{if◌then◌else◌}
use distributed_fault_tolera.Prelude.Lists.{length}
use Prim.Native.Nat.{◌≤◌, ◌<◌}
use mathlib.Core.Path.{◌≡◌, refl}
use mathlib.Core.Logic.{◌↔◌}
use mathlib.Core.Bool.{Bool, true}
use mathlib.Core.List.{List, [], ◌∷◌}
use mathlib.Core.Option.{Option, none, some}
use native.Mathlib.Omega.{arith}

module _ {K V : Type 0} (eq : K → K → Bool) where
  unfoldable pub lookup : K → List (K × V) → Option V
  lookup key [] = none
  lookup key ((this, found) ∷ others) = if eq this key then some found else lookup key others

  -- `delete(m, key)`; a key that is not there changes nothing.
  unfoldable pub delete : K → List (K × V) → List (K × V)
  delete key [] = []
  delete key ((this, held) ∷ others) =
      let shorter = delete key others in if eq this key then shorter else (this, held) ∷ shorter

  -- `m[key] = new`: the pair of the key keeps its place.
  unfoldable pub insert : K → V → List (K × V) → List (K × V)
  insert key new [] = (key, new) ∷ []
  insert key new ((this, held) ∷ others) =
      if eq this key then (this, new) ∷ others else (this, held) ∷ insert key new others

module _ {K V : Type 0} (eq : K → K → Bool) where
  length-delete_le :
      (gone : K) (entries : List (K × V)) → length (delete eq gone entries) ≤ length entries
  unfolding delete
  length-delete_le gone [] = omega arith
  length-delete_le gone ((this, held) ∷ others) = ground (arith, length-delete_le gone others)

  -- Deleting a key that is there.
  pub length-delete :
      (gone : K) (entries : List (K × V)) {held : V}
      → lookup eq gone entries ≡ some held
      → length (delete eq gone entries) < length entries
  unfolding lookup delete
  length-delete gone [] e = cc
  length-delete gone ((this, held) ∷ others) {held = v} e =
      ground (arith, length-delete gone others {held = v}, length-delete_le gone others)

  pub lookup-empty :
      (key : K) (entries : List (K × V)) → length entries ≤ 0 → lookup eq key entries ≡ none
  unfolding lookup
  lookup-empty key [] h = refl
  lookup-empty key (entry ∷ others) h = absurd (omega (arith, h))

-- Reading after a change, for a test that decides equality of keys.
module _ {K V : Type 0} (eq : K → K → Bool) (sound : (a b : K) → (eq a b ≡ true) ↔ (a ≡ b)) where
  pub lookup-delete :
      (gone key : K) (entries : List (K × V))
      → lookup eq key (delete eq gone entries)
        ≡ (if eq gone key then none else lookup eq key entries)
  unfolding lookup delete
  lookup-delete gone key [] = ground arith
  lookup-delete gone key ((this, held) ∷ others) =
      ground (arith, lookup-delete gone key others, sound this gone, sound this key, sound gone key)

  pub lookup-insert :
      (set key : K) (new : V) (entries : List (K × V))
      → lookup eq key (insert eq set new entries)
        ≡ (if eq set key then some new else lookup eq key entries)
  unfolding lookup insert
  lookup-insert set key new [] = refl
  lookup-insert set key new ((this, held) ∷ others) =
      ground
        (arith, lookup-insert set key new others, sound this set, sound this key, sound set key)
