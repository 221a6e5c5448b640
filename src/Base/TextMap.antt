-- ===== src/Base/TextMap.antt =====
-- A JavaScript `Map` or object keyed by strings, in insertion order: a write to a present key
-- keeps its place.
use bery_bc.Base.Tests.{same, same_iff, same_refl, if◌then◌else◌}
use bery_bc.Base.Lists.{length}
use Prim.Native.Nat.{ℕ, ◌+◌}
use mathlib.Core.Path.{◌≡◌, refl}
use mathlib.Core.Bool.{Bool, true, false}
use mathlib.Core.Option.{Option, none, some}
use mathlib.Core.List.{List, [], ◌∷◌}
use native.Mathlib.Omega.{arith}

abbrev pub TextMap {ℓ} : Type ℓ → Type ℓ
TextMap V = List (List ℕ × V)

module _ {ℓ} {V : Type ℓ} where
  -- `m.get(k)`
  unfoldable pub lookup : List ℕ → TextMap V → Option V
  lookup k [] = none
  lookup k ((j, v) ∷ m) = if same k j then some v else lookup k m

  -- `m.has(k)`
  unfoldable pub contains : List ℕ → TextMap V → Bool
  unfolding lookup
  contains k m = elim (lookup k m) [ none ↦ false | some _ ↦ true ]

  -- `m.set(k, v)`
  unfoldable pub insert : List ℕ → V → TextMap V → TextMap V
  insert k v [] = (k, v) ∷ []
  insert k v (e ∷ m) = if same k e.0 then (e.0, v) ∷ m else e ∷ insert k v m

  -- `m.delete(k)`
  unfoldable pub erase : List ℕ → TextMap V → TextMap V
  erase k [] = []
  erase k (e ∷ m) = if same k e.0 then m else e ∷ erase k m

  pub lookup-insert :
      (j k : List ℕ) (v : V) (m : TextMap V)
      → lookup j (insert k v m) ≡ (if same j k then some v else lookup j m)
  unfolding lookup insert
  lookup-insert j k v [] = refl
  lookup-insert j k v ((i, w) ∷ m) =
      ground (arith, same_iff j k, same_iff k i, same_iff j i, lookup-insert j k v m)

  pub lookup-insert_self : (k : List ℕ) (v : V) (m : TextMap V) → lookup k (insert k v m) ≡ some v
  lookup-insert_self k v m = simp (lookup-insert, same_refl)

  pub lookup-insert_ne :
      (j k : List ℕ) (v : V) (m : TextMap V)
      → same j k ≡ false
      → lookup j (insert k v m) ≡ lookup j m
  lookup-insert_ne j k v m h = rw (lookup-insert, h)

  pub length-insert_new :
      (k : List ℕ) (v : V) (m : TextMap V)
      → lookup k m ≡ none
      → length (insert k v m) ≡ length m + 1
  unfolding lookup insert
  length-insert_new k v [] h = omega arith
  length-insert_new k v ((i, w) ∷ m) h = ground (arith, length-insert_new k v m)

  pub length-erase :
      (k : List ℕ) (v : V) (m : TextMap V) → lookup k m ≡ some v → length (erase k m) + 1 ≡ length m
  unfolding lookup erase
  length-erase k v [] h = cc
  length-erase k v ((i, w) ∷ m) h = ground (arith, length-erase k v m)

  pub lookup-erase_ne :
      (j k : List ℕ) (m : TextMap V) → same j k ≡ false → lookup j (erase k m) ≡ lookup j m
  unfolding lookup erase
  lookup-erase_ne j k [] h = refl
  lookup-erase_ne j k ((i, w) ∷ m) h =
      ground (arith, same_iff j k, same_iff k i, same_iff j i, lookup-erase_ne j k m h)

  pub lookup-erase_absent :
      (j k : List ℕ) (m : TextMap V) → lookup j m ≡ none → lookup j (erase k m) ≡ none
  unfolding lookup erase
  lookup-erase_absent j k [] h = refl
  lookup-erase_absent j k ((i, w) ∷ m) h = ground (arith, lookup-erase_absent j k m)

pub contains-insert_self {ℓ} :
    {A : Type ℓ} (k : List ℕ) (a : A) (m : TextMap A) → contains k (insert k a m) ≡ true
unfolding contains
contains-insert_self k a m = rw (contains, lookup-insert_self k a m) refl
