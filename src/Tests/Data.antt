-- ===== src/Tests/Data.antt =====
-- A key, a transaction and a block for the tests.
use bery_bc.Base.{refl, [], ◌∷◌, replicate, none}
use bery_bc.Base.Int.{pos}
use bery_bc.Bytes.{Text}
use bery_bc.Crypto.{KeyPair}
use bery_bc.Crypto.Signatures.{IsKeyPair}
use bery_bc.Crypto.Toy.{toy}
use bery_bc.Core.Transaction.{Transaction, system_sender}
use bery_bc.Core.Block.{BlockHeader}

abbrev pub key : KeyPair
key = record { private_key = replicate 32 7; public_key = 2 ∷ replicate 32 7 }

pub key-IsKeyPair : IsKeyPair toy key
key-IsKeyPair = refl

abbrev pub coinbase_tx : Transaction
coinbase_tx = record {
  from = system_sender;
  to = b'a' ∷ b'1' ∷ [];
  value = pos 50;
  nonce = 1;
  gas_limit = 21000;
  gas_price = pos 0;
  payload = [];
  signature = none;
  eth_hash = none;
}

abbrev pub tx_of : Text → Transaction
tx_of sender = record {
  from = sender;
  to = b'b' ∷ b'2' ∷ [];
  value = pos 5;
  nonce = 1;
  gas_limit = 30000;
  gas_price = pos 2;
  payload = [];
  signature = none;
  eth_hash = none;
}

abbrev pub header : BlockHeader
header = record {
  version = 1;
  height = 3;
  round = 0;
  timestamp = 1000;
  parent_hash = replicate 32 1;
  state_root = replicate 32 2;
  transactions_root = replicate 32 0;
  validator = b'a' ∷ b'1' ∷ [];
  signature = none;
}
