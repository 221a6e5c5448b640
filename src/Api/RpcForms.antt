-- ===== src/Api/RpcForms.antt =====
-- What the methods of /rpc answer with, and the tags of heights that they take.
use bery_bc.Base.{
  ℕ, Option, none, some, List, [], ◌∷◌, ◌++◌, map, replicate, same, ◌==◌, ◌&&◌, if◌then◌else◌,
}
use bery_bc.Base.Throws.{◌>>=◌}
use bery_bc.Bytes.{Bytes, Text, to_hex, to_string}
use bery_bc.Bytes.ParseHex.{parse_hex}
use bery_bc.Core.Block.Json.{BlockJson}
use bery_bc.Core.Transaction.{Transaction}
use bery_bc.Core.Transaction.Json.{TransactionJson}
use bery_bc.Storage.Logs.{BlockMeta, ox, hex_number}

pub record RpcConfig : Type 0 where
  pub chain_id : ℕ
  pub base_fee : ℕ
  pub priority_fee : ℕ

pub record RpcTransaction : Type 0 where
  pub hash : Text
  pub from : Text
  pub to : Option Text
  pub nonce : Text
  pub value : Text
  pub gas : Text
  pub gas_price : Text
  pub input : Text
  pub block_hash : Option Text
  pub block_number : Option Text

-- The fields that are constants are left out.
pub record RpcBlock : Type 0 where
  pub number : Text
  pub hash : Text
  pub parent_hash : Text
  pub timestamp : Text
  pub miner : Text
  pub base_fee_per_gas : Text
  pub gas_used : Text
  pub receipts_root : Text
  pub logs_bloom : Text
  pub transactions : List Text

pub record FeeHistory : Type 0 where
  pub oldest_block : Text
  pub base_fee_per_gas : List Text
  pub gas_used_ratio : List ℕ

-- `t.to ? '0x' + t.to : null`
abbrev target_of : Text → Option Text
target_of [] = none
target_of (c ∷ cs) = some (ox ++ c ∷ cs)

-- A transaction, and the hash and the height of its block if it has one.
unfoldable pub rpc_transaction : Transaction → Bytes → Option (Text × ℕ) → RpcTransaction
rpc_transaction t hash mined = record {
  hash = ox ++ to_hex hash;
  from = ox ++ t.from;
  to = target_of t.to;
  nonce = hex_number t.nonce;
  value = ox ++ to_string 16 t.value;
  gas = hex_number t.gas_limit;
  gas_price = ox ++ to_string 16 t.gas_price;
  input = ox ++ to_hex t.payload;
  block_hash = mined >>= λ b. some (ox ++ b.0);
  block_number = mined >>= λ b. some (hex_number b.1);
}

-- 'NaN'
abbrev not_a_number : Text
not_a_number = b'N' ∷ b'a' ∷ b'N' ∷ []

-- `meta ? meta.gasUsed : 0`
abbrev gas_text : Option BlockMeta → Text
gas_text none = hex_number 0
gas_text (some m) = elim m.gas_used [ none ↦ ox ++ not_a_number | some n ↦ hex_number n ]

abbrev bloom_text : Option BlockMeta → Text
bloom_text none = ox ++ replicate 512 b'0'
bloom_text (some m) = ox ++ m.logs_bloom

unfoldable pub rpc_block : RpcConfig → BlockJson → Option BlockMeta → RpcBlock
rpc_block g j meta = record {
  number = hex_number j.header.height;
  hash = ox ++ j.header.hash;
  parent_hash = ox ++ j.header.parent_hash;
  timestamp = hex_number j.header.timestamp;
  miner = ox ++ j.header.validator;
  base_fee_per_gas = hex_number g.base_fee;
  gas_used = gas_text meta;
  receipts_root = ox ++ j.header.transactions_root;
  logs_bloom = bloom_text meta;
  transactions = map (λ (t : TransactionJson). ox ++ t.hash) j.transactions;
}

-- `typeof tag === 'string' && tag.startsWith('0x')`: what follows the prefix.
unfoldable pub after_0x : Text → Option Text
after_0x [] = none
after_0x (x ∷ []) = none
after_0x (x ∷ y ∷ cs) = if (x == b'0') && (y == b'x') then some cs else none

-- The height of a tag: `parseInt` of a number, with `none` for NaN, and the head's for every other text.
unfoldable pub height_of_tag : Text → ℕ → Option ℕ
unfolding after_0x
height_of_tag tag head = elim (after_0x tag) [ none ↦ some head | some digits ↦ parse_hex digits ]

-- 'earliest'
abbrev earliest : Text
earliest = b'e' ∷ b'a' ∷ b'r' ∷ b'l' ∷ b'i' ∷ b'e' ∷ b's' ∷ b't' ∷ []

-- The first height of a filter, where 'earliest' is known.
unfoldable pub from_of_tag : Text → ℕ → Option ℕ
unfolding after_0x
from_of_tag tag head = elim (after_0x tag) [
  | none ↦ if same tag earliest then some 0 else some head
  | some digits ↦ parse_hex digits
]
