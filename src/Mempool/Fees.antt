-- ===== src/Mempool/Fees.antt =====
-- The cheapest transaction of the pool.
use mathlib.Core.Path.{subst}
use bery_bc.Base.Throws.{some-inj}
use bery_bc.Base.{◌≡◌, refl, some, List, [], ◌∷◌, arith, inl, inr, Bool-cases}
use bery_bc.Base.Int.{◌≤ℤ◌, ltb_ℤ}
use bery_bc.Core.Transaction.{Transaction}
use bery_bc.Mempool.Defs.{Mempool, values, lower, lowest_from, get_lowest_fee_transaction}

abbrev pub AllFrom {ℓ} : (Transaction → Type ℓ) → List Transaction → Type ℓ
AllFrom P [] = Unit
AllFrom P (t ∷ ts) = P t × AllFrom P ts

-- No transaction of the list is cheaper.
abbrev pub IsLowest : Transaction → List Transaction → Type 0
IsLowest l = AllFrom (λ t. l.gas_price ≤ℤ t.gas_price)

IsLowest-trans :
    (l m : Transaction) (ts : List Transaction)
    → l.gas_price ≤ℤ m.gas_price
    → IsLowest m ts
    → IsLowest l ts
IsLowest-trans l m [] h p = tt
IsLowest-trans l m (t ∷ ts) h p = (omega arith, IsLowest-trans l m ts h p.1)

lowest_from-some :
    (a l : Transaction) (ts : List Transaction)
    → lowest_from (some a) ts ≡ some l
    → (l.gas_price ≤ℤ a.gas_price) × IsLowest l ts
unfolding lowest_from lower
lowest_from-some a l [] e = ground arith
lowest_from-some a l (t ∷ ts) e = elim (Bool-cases (ltb_ℤ t.gas_price a.gas_price)) [
  | inl less ↦ let (p, q) = lowest_from-some t l ts (rw less at e) in (ground arith, (p, q))
  | inr more ↦ let (p, q) = lowest_from-some a l ts (rw more at e) in (p, (ground arith, q))
]

pub least_fee-IsLowest :
    (m : Mempool) (l : Transaction) → get_lowest_fee_transaction m ≡ some l → IsLowest l (values m)
unfolding get_lowest_fee_transaction lowest_from lower
least_fee-IsLowest [] l e = cc
least_fee-IsLowest ((k, t) ∷ m) l e = lowest_from-some t l (values m) e

pub lowest_from-total :
    (a : Transaction) (ts : List Transaction)
    → (l : Transaction) × (lowest_from (some a) ts ≡ some l)
unfolding lowest_from lower
lowest_from-total a [] = (a, refl)
lowest_from-total a (t ∷ ts) = elim (Bool-cases (ltb_ℤ t.gas_price a.gas_price)) [
  | inl less ↦ rw less (lowest_from-total t ts)
  | inr more ↦ rw more (lowest_from-total a ts)
]

-- The cheapest is one of the pool.
pub lowest_from-source :
    (P : Transaction → Type 0) (a : Transaction) (ts : List Transaction) (l : Transaction)
    → P a
    → AllFrom P ts
    → lowest_from (some a) ts ≡ some l
    → P l
unfolding lowest_from lower
lowest_from-source P a [] l p ps e = subst P (some-inj e) p
lowest_from-source P a (t ∷ ts) l p ps e = elim (Bool-cases (ltb_ℤ t.gas_price a.gas_price)) [
  | inl less ↦ lowest_from-source P t ts l ps.0 ps.1 (rw less at e)
  | inr more ↦ lowest_from-source P a ts l p ps.1 (rw more at e)
]

pub lowest_fee-source :
    (P : Transaction → Type 0) (m : Mempool) (l : Transaction)
    → AllFrom P (values m)
    → get_lowest_fee_transaction m ≡ some l
    → P l
unfolding get_lowest_fee_transaction lowest_from lower
lowest_fee-source P [] l ps e = cc
lowest_fee-source P ((k, t) ∷ m) l ps e = lowest_from-source P t (values m) l ps.0 ps.1 e
