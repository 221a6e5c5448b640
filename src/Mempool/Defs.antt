-- ===== src/Mempool/Defs.antt =====
-- The class `Mempool`. The map is keyed by the hash in hexadecimal. The state manager, if there is
-- one, is the function that reads an account, `none` where the read throws.
use bery_bc.Base.{
  ℕ, ◌^◌, Bool, true, false, Option, none, some, List, [], ◌∷◌, map, length, take, same, not, leb,
  ltb, if◌then◌else◌,
}
use bery_bc.Base.Int.{ℤ, pos, ◌+ℤ◌, ltb_ℤ, eqb_ℤ, nat_abs}
use bery_bc.Base.TextMap.{TextMap, contains, insert, erase}
use bery_bc.Base.Throws.{◌>>=◌}
use bery_bc.Bytes.{Text, to_hex}
use bery_bc.Crypto.{Crypto}
use bery_bc.State.Account.{Account}
use bery_bc.Core.Transaction.{Transaction, system_sender}
use bery_bc.Core.Transaction

abbrev pub Mempool : Type 0
Mempool = TextMap Transaction

-- `MAX_SIZE`
abbrev pub max_size : ℕ
max_size = 5000

-- `n.toNumber()` throws beyond 53 bits.
unfoldable pub to_number : ℤ → Option ℤ
to_number n = if ltb (nat_abs n) (2 ^ 53) then some n else none

abbrev pub values : Mempool → List Transaction
values = map λ e. e.1

-- One round of the loop of `getLowestFeeTransaction`.
unfoldable pub lower : Option Transaction → Transaction → Option Transaction
lower none t = some t
lower (some lowest) t = if ltb_ℤ t.gas_price lowest.gas_price then some t else some lowest

unfoldable pub lowest_from : Option Transaction → List Transaction → Option Transaction
unfolding lower
lowest_from lowest [] = lowest
lowest_from lowest (t ∷ ts) = lowest_from (lower lowest t) ts

-- `getLowestFeeTransaction`
unfoldable pub get_lowest_fee_transaction : Mempool → Option Transaction
unfolding lowest_from
get_lowest_fee_transaction m = lowest_from none (values m)

-- `remove` of a text
unfoldable pub remove : Text → Mempool → Mempool
remove hash m = erase hash m

-- The place of a transaction among others of no lower price: behind those of its own price.
unfoldable pub place : Transaction → List Transaction → List Transaction
place t [] = t ∷ []
place t (u ∷ us) = if ltb_ℤ t.gas_price u.gas_price then u ∷ place t us else t ∷ u ∷ us

-- `sort((a, b) => b.gasPrice.cmp(a.gasPrice))`; the sort of JavaScript is stable.
unfoldable pub sort_by_price : List Transaction → List Transaction
unfolding place
sort_by_price [] = []
sort_by_price (t ∷ ts) = place t (sort_by_price ts)

unfoldable pub get_transactions : ℕ → Mempool → List Transaction
unfolding sort_by_price
get_transactions limit m = take limit (sort_by_price (values m))

-- The nonce policy, if there is a state manager: the next nonce, and no read that throws.
unfoldable pub nonce_accepted : Option (Text → Option Account) → Transaction → Bool
unfolding to_number
nonce_accepted none t = true
nonce_accepted (some get_account) t = elim (get_account t.from >>= λ a. to_number a.nonce) [
  | none ↦ false
  | some n ↦ eqb_ℤ (pos t.nonce) (n +ℤ pos 1)
]

module _ (c : Crypto) where
  -- Room for a transaction of this price: the pool as it is, or without its cheapest one; `none`
  -- if the new one is refused. The outer `none` is a throw of the hash.
  unfoldable pub make_room : ℤ → Mempool → Option (Option Mempool)
  make_room price m =
      if leb max_size (length m)
      then elim (get_lowest_fee_transaction m) [
        | none ↦ some none
        | some lowest ↦
            if ltb_ℤ lowest.gas_price price
            then (Transaction.hash c lowest >>= λ h. some (some (remove (to_hex h) m)))
            else some none
      ]
      else some (some m)

  -- The answer, and the pool; `none` where `tx.hash` throws.
  unfoldable pub add :
      Option (Text → Option Account) → Transaction → Mempool → Option (Bool × Mempool)
  unfolding make_room
  add accounts t m =
      if not (Transaction.verify c t)
      then some (false, m)
      else if same t.from system_sender
      then some (false, m)
      else if not (nonce_accepted accounts t)
      then some (false, m)
      else do
        h ← Transaction.hash c t
        let hash = to_hex h
        if contains hash m then some (false, m) else do
          room ← make_room t.gas_price m
          elim room [ none ↦ some (false, m) | some m' ↦ some (true, insert hash t m') ]
