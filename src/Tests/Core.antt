-- ===== src/Tests/Core.antt =====
-- Tests of transactions, Merkle roots and blocks.
use bery_bc.Base.{
  ℕ, zero, suc, ◌<◌, same, ◌≡◌, refl, true, false, some, [], ◌∷◌, ◌++◌, replicate, arith,
}
use bery_bc.Bytes.{to_hex, write_be}
use bery_bc.Bytes.HexLaws.{IsBytes}
use bery_bc.Crypto.{get_address}
use bery_bc.Crypto
use bery_bc.Crypto.Toy.{toy, toy-IsSound, low_bytes}
use bery_bc.Core.Transaction.{Transaction}
use bery_bc.Core.Transaction
use bery_bc.Core.Transaction.Signing.{verify-sign}
use bery_bc.Core.Transaction.Json.{TransactionJson, from_json-to_json}
use bery_bc.Core.Transaction.Json as TransactionForm
use bery_bc.Core.Merkle.{compute_root}
use bery_bc.Core.Merkle.Laws.{compute_root-duplicate}
use bery_bc.Core.Block.{Block, BlockHeader, sign, verify, header_hash, get_bytes}
use bery_bc.Core.Block.Verify.{signed_block_refused}
use bery_bc.Core.Block.Json.{BlockJson, from_json-to_json_block}
use bery_bc.Core.Block.Json as BlockForm
use bery_bc.Tests.Data.{key, key-IsKeyPair, coinbase_tx, tx_of, header}

abbrev pub own_tx : Transaction
own_tx = tx_of (get_address toy key)

unfoldable pub signed : (u : Transaction) × (Transaction.sign toy key own_tx ≡ some u)
unfolding Transaction.sign same get_address to_hex low_bytes Transaction.get_bytes write_be
    Crypto.sign
signed = (_, refl)

abbrev pub signed_tx : Transaction
signed_tx = signed.0

verify-sign_example :
    (Transaction.verify toy signed_tx ≡ true)
    × (signed_tx ≡ record own_tx { signature = signed_tx.signature })
verify-sign_example = verify-sign toy toy-IsSound key key-IsKeyPair own_tx signed_tx signed.1

compute_root-duplicate_example :
    compute_root toy ((1 ∷ []) ∷ ((2 ∷ []) ∷ []) ++ (3 ∷ []) ∷ [])
    ≡ compute_root toy ((1 ∷ []) ∷ ((2 ∷ []) ∷ []) ++ ((3 ∷ []) ∷ (3 ∷ []) ∷ []))
compute_root-duplicate_example = compute_root-duplicate toy (1 ∷ []) ((2 ∷ []) ∷ []) (3 ∷ []) refl

pub coinbase_tx-IsPlain : TransactionForm.IsPlain coinbase_tx
coinbase_tx-IsPlain = record {
  gas_set = λ h. ground arith;
  payload_bytes = tt;
  signature_bytes = tt;
  eth_hash_bytes = tt;
}

written : (j : TransactionJson) × (TransactionForm.to_json toy coinbase_tx ≡ some j)
unfolding TransactionForm.to_json Transaction.hash write_be
written = (_, refl)

abbrev pub small_block : Block
small_block = record { header = header; transactions = coinbase_tx ∷ [] }

replicate-IsBytes : (n b : ℕ) → b < 256 → IsBytes (replicate n b)
replicate-IsBytes zero b h = tt
replicate-IsBytes (suc n) b h = (h, replicate-IsBytes n b h)

pub header-IsPlainHeader : BlockForm.IsPlainHeader header
header-IsPlainHeader = record {
  parent_bytes = replicate-IsBytes 32 1 (omega arith);
  state_bytes = replicate-IsBytes 32 2 (omega arith);
  root_bytes = replicate-IsBytes 32 0 (omega arith);
  signature_bytes = tt;
}

pub written_block : (j : BlockJson) × (BlockForm.to_json toy small_block ≡ some j)
unfolding BlockForm.to_json TransactionForm.to_json Transaction.hash write_be header_hash
written_block = (_, refl)

abbrev pub own_header : BlockHeader
own_header = record header { validator = get_address toy key }

pub signed_header : (u : BlockHeader) × (sign toy key own_header ≡ some u)
unfolding sign same get_address to_hex low_bytes write_be Crypto.sign get_bytes
signed_header = (_, refl)

signed_block_refused_example :
    verify toy (record { header = signed_header.0; transactions = coinbase_tx ∷ [] }) ≡ some false
signed_block_refused_example =
    signed_block_refused toy toy-IsSound key own_header signed_header.0 (coinbase_tx ∷ [])
      signed_header.1
