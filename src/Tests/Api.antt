-- ===== src/Tests/Api.antt =====
-- Tests of the handlers of the HTTP interface.
use bery_bc.Base.{
  ℕ, ◌≡◌, refl, true, Option, none, some, [], ◌∷◌, leb, if◌then◌else◌, replicate, same, arith,
}
use bery_bc.Base.Int.{ℤ, pos}
use bery_bc.Bytes.{Bytes, Text, to_hex, write_be, to_string, from_hex, hex_value, pad_start}
use bery_bc.Crypto.{get_address}
use bery_bc.Crypto
use bery_bc.Crypto.Toy.{toy, low_bytes}
use bery_bc.State.Account.{Account, empty_account}
use bery_bc.Core.Transaction.{Transaction}
use bery_bc.Core.Transaction
use bery_bc.Core.Block.{Block}
use bery_bc.Mempool.{Mempool, add, nonce_accepted}
use bery_bc.Storage.Blocks.{strip_0x}
use bery_bc.Base.TextMap.{contains}
use bery_bc.Api.Fields.{Field, text, absent, ApiError, success, failure, validate_tx_body}
use bery_bc.Api.Faucet.{FaucetConfig, FaucetRequest, Server, faucet}
use bery_bc.Api.FaucetLaws.{faucet_refuses}
use bery_bc.Api.Submit.{TxRequest, send_tx}
use bery_bc.Api.SubmitLaws.{Promised, send_tx-Promised}
use bery_bc.Api.PageLaws.{collect, newest_first, collect-chain}
use bery_bc.Tests.Data.{key, tx_of}
use bery_bc.Tests.Core.{small_block}

abbrev open_faucet : FaucetConfig
open_faucet = record { faucet_enabled = true; faucet_token = [] }

abbrev ask : FaucetRequest
ask = record {
  token = none;
  address = text (replicate 40 b'a');
  amount = absent;
  now = 9000;
  later = 9001;
  sends = true;
}

abbrev rich : Text → Option Account
rich address = some (record empty_account { nonce = pos 4; balance = pos 100000 })

abbrev server : Server
server = record { pool = []; faucet_last = [] }

faucet_refuses_example :
    (e : ApiError) × (faucet toy rich (some rich) open_faucet (some key) ask server
      ≡ (failure e, server))
faucet_refuses_example = faucet_refuses toy rich open_faucet (some key) ask server

abbrev chain : ℕ → Option Block
chain height = if leb height 2 then some small_block else none

collect-chain_example : collect chain 2 2 3 0 ≡ newest_first chain 3
collect-chain_example = collect-chain chain 2 1 3 (omega arith)

abbrev own_tx : Transaction
own_tx = record (tx_of (get_address toy key)) { to = []; gas_price = pos 5 }

signed : (u : Transaction) × (Transaction.sign toy key own_tx ≡ some u)
unfolding Transaction.sign same get_address to_hex low_bytes Transaction.get_bytes write_be
    Crypto.sign
signed = (_, refl)

abbrev signature_text : Option Bytes → Text
signature_text none = []
signature_text (some s) = to_hex s

abbrev body : TxRequest
body = record {
  from = text (get_address toy key);
  to = some [];
  value = text (b'5' ∷ []);
  nonce = 1;
  signature = text (signature_text signed.0.signature);
  gas_limit = some 30000;
  gas_price = text (b'5' ∷ []);
  payload = none;
  sends = true;
}

five : Field → Option ℤ
five f = some (pos 5)

accepted : (answer : Text) × (m' : Mempool) × (send_tx toy five none body [] ≡ (success answer, m'))
unfolding send_tx signed five validate_tx_body strip_0x hex_value from_hex pad_start to_string
    Transaction.verify Transaction.new_transaction Crypto.recover add nonce_accepted
    Transaction.hash contains
accepted = (_, _, refl)

send_tx-Promised_example : Promised toy five none accepted.0 [] accepted.1
send_tx-Promised_example = send_tx-Promised toy five none body [] accepted.1 accepted.0 accepted.2
