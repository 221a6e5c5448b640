-- ===== src/Tests/Nonce.antt =====
-- A wallet that asks for the nonce of its next transaction.
use bery_bc.Base.{◌≡◌, refl, true, some, [], ◌∷◌}
use bery_bc.Base.TextMap.{lookup}
use bery_bc.Bytes.{hex_value, to_string}
use bery_bc.Bytes.ParseHex.{parse_hex, parse_hex_from}
use bery_bc.Core.Transaction.{Transaction}
use bery_bc.Crypto.Toy.{toy}
use bery_bc.Mempool.{Mempool, add}
use bery_bc.State.Manager.{get_account}
use bery_bc.State.Manager.Toy.{toy_trie}
use bery_bc.Storage.Database.{map_database}
use bery_bc.Api.Rpc.{get_transaction_count}
use bery_bc.Api.RpcForms.{after_0x}
use bery_bc.Api.RpcLaws.{counted_nonce_refused}
use bery_bc.Tests.Data.{tx_of}
use bery_bc.Tests.Forms.{toy_forms}
use bery_bc.Tests.Ledger.{empty_db}

abbrev counted_tx : Transaction
counted_tx = record (tx_of (b'c' ∷ b'1' ∷ [])) { nonce = 0 }

counted_nonce_refused_example : ¬ (
    (m' : Mempool) × (add toy (some (λ a. some (get_account toy_trie empty_db a))) counted_tx []
      ≡ some (true, m')))
unfolding get_account lookup get_transaction_count after_0x parse_hex to_string parse_hex_from
    hex_value
counted_nonce_refused_example =
    counted_nonce_refused toy_trie map_database toy_forms toy counted_tx 0 empty_db [] refl refl
