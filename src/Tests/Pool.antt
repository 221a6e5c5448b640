-- ===== src/Tests/Pool.antt =====
-- Tests of the mempool.
use bery_bc.Base.{◌≡◌, refl, true, none, some, List, [], ◌∷◌, ◌++◌, length, same, arith}
use bery_bc.Base.Int.{pos}
use bery_bc.Base.TextMap.{contains, insert}
use bery_bc.Bytes.{Bytes, to_hex, write_be, from_hex, pad_start, to_string}
use bery_bc.Crypto.{get_address}
use bery_bc.Crypto
use bery_bc.Crypto.Toy.{toy, low_bytes}
use bery_bc.Core.Transaction.{Transaction}
use bery_bc.Core.Transaction
use bery_bc.Mempool.{Mempool, nonce_accepted, add, get_transactions, values}
use bery_bc.Mempool.Invariant.{IsValid, add-IsValid}
use bery_bc.Mempool.Order.{get_transactions_best, IsDescending}
use bery_bc.Tests.Core.{signed_tx, signed}
use bery_bc.Tests.Data.{tx_of}
use Prim.Native.Nat.{min}
use mathlib.Core.List.{Perm}

unfoldable pub hashed : (h : Bytes) × (Transaction.hash toy signed_tx ≡ some h)
unfolding Transaction.hash Transaction.get_bytes write_be signed Transaction.sign same get_address
    to_hex low_bytes Crypto.sign
hashed = (_, refl)

abbrev pub pool_of_one : Mempool
pool_of_one = (to_hex hashed.0, signed_tx) ∷ []

pub added : add toy none signed_tx [] ≡ some (true, pool_of_one)
unfolding add signed hashed Transaction.hash Transaction.get_bytes write_be Transaction.sign same
    get_address to_hex low_bytes Crypto.sign Transaction.verify from_hex pad_start to_string
    Crypto.recover nonce_accepted contains insert
added = refl

empty-IsValid : IsValid toy []
empty-IsValid = record { bounded = omega arith; entries = tt }

add-IsValid_example : IsValid toy pool_of_one
add-IsValid_example = add-IsValid toy none signed_tx [] pool_of_one true empty-IsValid added

abbrev three : Mempool
three =
    ((1 ∷ []), tx_of (1 ∷ []))
    ∷ ((2 ∷ []), record (tx_of (2 ∷ [])) { gas_price = pos 9 })
    ∷ ((3 ∷ []), record (tx_of (3 ∷ [])) { gas_price = pos 4 })
    ∷ []

get_transactions_best_example :
    (length (get_transactions 2 three) ≡ min 2 (length three))
    × ((rest : List Transaction) × Perm (get_transactions 2 three ++ rest) (values three)
        × IsDescending (get_transactions 2 three ++ rest))
get_transactions_best_example = get_transactions_best 2 three
