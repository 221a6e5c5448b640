-- ===== src/Mempool/Order.antt =====
-- What a proposer takes from the pool.
use Prim.Native.Nat.{min}
use mathlib.Core.List.Perm
use mathlib.Core.List.{Perm}
use bery_bc.Base.{
  ℕ, zero, suc, ◌+◌, ◌≡◌, refl, ap, List, [], ◌∷◌, ◌++◌, arith, inl, inr, Bool-cases, length, take,
  drop, length-take,
}
use bery_bc.Base.Int.{◌≤ℤ◌, ltb_ℤ}
use bery_bc.Core.Transaction.{Transaction}
use bery_bc.Mempool.Defs.{Mempool, values, place, sort_by_price, get_transactions}
use bery_bc.Mempool.Fees.{AllFrom}

-- No transaction pays more than one before it.
abbrev pub IsDescending : List Transaction → Type 0
IsDescending [] = Unit {0}
IsDescending (t ∷ ts) = AllFrom (λ u. u.gas_price ≤ℤ t.gas_price) ts × IsDescending ts

place-perm : (t : Transaction) (ts : List Transaction) → Perm (place t ts) (t ∷ ts)
unfolding place
place-perm t [] = Perm.refl (t ∷ [])
place-perm t (u ∷ ts) = elim (Bool-cases (ltb_ℤ t.gas_price u.gas_price)) [
  | inl less ↦ rw less (Perm.trans (Perm.cons u (place-perm t ts)) (Perm.swap t u ts))
  | inr more ↦ rw more (Perm.refl (t ∷ u ∷ ts))
]

sort-perm : (ts : List Transaction) → Perm (sort_by_price ts) ts
unfolding sort_by_price
sort-perm [] = Perm.refl []
sort-perm (t ∷ ts) = Perm.trans (place-perm t (sort_by_price ts)) (Perm.cons t (sort-perm ts))

module _ (b : Transaction) where
  AllFrom-le :
      (t : Transaction) (ts : List Transaction)
      → t.gas_price ≤ℤ b.gas_price
      → AllFrom (λ u. u.gas_price ≤ℤ t.gas_price) ts
      → AllFrom (λ u. u.gas_price ≤ℤ b.gas_price) ts
  AllFrom-le t [] h p = tt
  AllFrom-le t (u ∷ ts) h p = (omega arith, AllFrom-le t ts h p.1)

  place-AllFrom :
      (t : Transaction) (ts : List Transaction)
      → t.gas_price ≤ℤ b.gas_price
      → AllFrom (λ u. u.gas_price ≤ℤ b.gas_price) ts
      → AllFrom (λ u. u.gas_price ≤ℤ b.gas_price) (place t ts)
  unfolding place
  place-AllFrom t [] h p = (h, tt)
  place-AllFrom t (u ∷ ts) h p = elim (Bool-cases (ltb_ℤ t.gas_price u.gas_price)) [
    | inl less ↦ rw less (p.0, place-AllFrom t ts h p.1)
    | inr more ↦ rw more (h, p)
  ]

place-IsDescending :
    (t : Transaction) (ts : List Transaction) → IsDescending ts → IsDescending (place t ts)
unfolding place
place-IsDescending t [] d = (tt, tt)
place-IsDescending t (u ∷ ts) d = elim (Bool-cases (ltb_ℤ t.gas_price u.gas_price)) [
  | inl less ↦ rw less (place-AllFrom u t ts (ground arith) d.0, place-IsDescending t ts d.1)
  | inr more ↦
      let le : u.gas_price ≤ℤ t.gas_price = ground arith in
      rw more ((le, AllFrom-le t u ts le d.0), d)
]

sort-IsDescending : (ts : List Transaction) → IsDescending (sort_by_price ts)
unfolding sort_by_price
sort-IsDescending [] = tt
sort-IsDescending (t ∷ ts) = place-IsDescending t (sort_by_price ts) (sort-IsDescending ts)

length-place : (t : Transaction) (ts : List Transaction) → length (place t ts) ≡ length ts + 1
unfolding place
length-place t [] = omega arith
length-place t (u ∷ ts) = ground (arith, length-place t ts)

length-sort : (m : Mempool) → length (sort_by_price (values m)) ≡ length m
unfolding sort_by_price
length-sort [] = refl
length-sort ((k, t) ∷ m) = omega (arith, length-place t (sort_by_price (values m)), length-sort m)

take-append-drop {ℓ} : {A : Type ℓ} (n : ℕ) (xs : List A) → take n xs ++ drop n xs ≡ xs
take-append-drop zero xs = refl
take-append-drop (suc n) [] = refl
take-append-drop (suc n) (x ∷ xs) = ap (◌∷◌ x) (take-append-drop n xs)

-- `getTransactions` returns as many transactions as asked for, or all there are; with those left out
-- they are the pool's, each once, in an order in which no transaction pays more than one before it.
-- So none that is left out pays more than one that is returned.
pub get_transactions_best :
    (limit : ℕ) (m : Mempool)
    → (length (get_transactions limit m) ≡ min limit (length m))
      × ((rest : List Transaction) × Perm (get_transactions limit m ++ rest) (values m)
          × IsDescending (get_transactions limit m ++ rest))
unfolding get_transactions
get_transactions_best limit m =
    let sorted = sort_by_price (values m) in
    (
      omega (arith, length-take limit sorted, length-sort m),
      (
        drop limit sorted,
        rw (take-append-drop limit sorted) (sort-perm (values m)),
        rw (take-append-drop limit sorted) (sort-IsDescending (values m)),
      ),
    )
