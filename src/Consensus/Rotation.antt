-- ===== src/Consensus/Rotation.antt =====
-- The turns of the proposers.
use Prim.Native.Nat.mod
use Prim.Native.Nat.{mod_helper}
use bery_bc.Base.{
  ℕ, suc, zero, ◌+◌, ◌-◌, ◌%◌, ◌≤◌, ◌<◌, ◌≡◌, sym, ◌∙◌, ap, inl, inr, some, List, [], ◌∷◌, leb,
  Bool-cases, length, get_elem?, arith,
}
use bery_bc.Consensus.Node.{Validator, get_proposer}

-- The remainder, below the divisor and from the divisor on.
helper_small : (k m n j : ℕ) → n ≤ j → mod_helper k m n j ≡ n + k
helper_small k m zero j h = omega arith
helper_small k m (suc n) zero h = absurd (omega (arith, h))
helper_small k m (suc n) (suc j) h = omega (arith, helper_small (suc k) m n j (omega (arith, h)))

helper_big : (k m n j : ℕ) → j < n → mod_helper k m n j ≡ mod_helper zero m (n - suc j) m
helper_big k m zero j h = absurd (omega (arith, h))
helper_big k m (suc n) zero h =
    let e : n ≡ suc n - 1 = omega arith in ap (λ x. mod_helper zero m x m) e
helper_big k m (suc n) (suc j) h =
    let e : n - suc j ≡ suc n - suc (suc j) = omega arith in
    helper_big (suc k) m n j (omega (arith, h)) ∙ ap (λ x. mod_helper zero m x m) e

mod_small : (a m : ℕ) → a ≤ m → a % suc m ≡ a
mod_small a m h = mod.suc a m ∙ helper_small zero m a m h ∙ omega arith

mod_big : (a m : ℕ) → m < a → a % suc m ≡ (a - suc m) % suc m
mod_big a m h = mod.suc a m ∙ helper_big zero m a m h ∙ sym (mod.suc (a - suc m) m)

-- Every remainder is met within one turn.
meets :
    (fuel height m i : ℕ) → height < fuel → i ≤ m → (r : ℕ) × (r ≤ m) × ((height + r) % suc m ≡ i)
meets zero height m i h low = absurd (omega (arith, h))
meets (suc fuel) height m i h low = elim (Bool-cases (leb height m)) [
  | inr far ↦
      let (r, few, met) = meets fuel (height - suc m) m i (ground arith) low in
      let e : height + r - suc m ≡ height - suc m + r = ground arith in
      (r, few, mod_big (height + r) m (ground arith) ∙ ap (λ x. x % suc m) e ∙ met)
  | inl near ↦ elim (Bool-cases (leb height i)) [
    | inl ahead ↦
        let e : height + (i - height) ≡ i = ground arith in
        (i - height, omega (arith, low), ap (λ x. x % suc m) e ∙ mod_small i m low)
    | inr behind ↦
        let e : height + (i + suc m - height) - suc m ≡ i = ground arith in
        (
          i + suc m - height,
          ground arith,
          mod_big (height + (i + suc m - height)) m (ground arith)
              ∙ ap (λ x. x % suc m) e
              ∙ mod_small i m low,
        )
  ]
]

in_range : (vs : List Validator) (i : ℕ) (v : Validator) → get_elem? vs i ≡ some v → i < length vs
in_range [] i v h = cc
in_range (u ∷ us) zero v h = omega arith
in_range (u ∷ us) (suc i) v h = omega (arith, in_range us i v h)

-- At every height each validator of the list is the proposer of some round, and of one of the first
-- ones: there are as many of these as validators.
pub proposes_in_turn :
    (vs : List Validator) (height i : ℕ) (v : Validator)
    → get_elem? vs i ≡ some v
    → (round : ℕ) × (round < length vs) × (get_proposer vs height round ≡ some v)
unfolding get_proposer
proposes_in_turn vs height i v h =
    let low = in_range vs i v h in
    let (r, few, met) =
      meets (suc height) height (length vs - 1) i (omega arith) (omega (arith, low)) in
    let e : suc (length vs - 1) ≡ length vs = omega (arith, low) in
    (
      r,
      omega (arith, few, low),
      ap (λ n. get_elem? vs ((height + r) % n)) (sym e) ∙ ap (get_elem? vs) met ∙ h,
    )
