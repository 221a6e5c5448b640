-- ===== src/Api/Rpc.antt =====
-- `POST /rpc`, method by method, but for `eth_sendRawTransaction`, which is code of packages for the most
-- part. The parameters are texts, with the empty one for a missing one; the outer `none` of an answer is a
-- throw.
use bery_bc.Base.{ℕ, Option, none, some, List, [], ◌∷◌, ◌++◌, replicate, same, if◌then◌else◌}
use bery_bc.Base.TextMap.{lookup}
use bery_bc.Base.Throws.{◌>>=◌}
use bery_bc.Bytes.{Bytes, Text, to_hex, from_hex, to_string}
use bery_bc.Core.Block.{Block}
use bery_bc.Core.Block.Json.{to_json}
use bery_bc.Core.Transaction.{Transaction}
use bery_bc.Core.Transaction
use bery_bc.Crypto.{Crypto}
use bery_bc.Evm.{Machine, CallParams, evm_call, evm_estimate_gas}
use bery_bc.Mempool.{Mempool}
use bery_bc.State.Account.{zero_hash}
use bery_bc.State.Manager.{Trie, get_account, get_code, get_contract_storage}
use bery_bc.Storage.Blocks.{
  Located, get_block, get_block_by_hash, get_transaction, get_head, strip_0x,
}
use bery_bc.Storage.Bloom.{drop_0x}
use bery_bc.Storage.Database.{Database, Forms}
use bery_bc.Storage.Logs.{LogAnswer, BlockMeta, ox, hex_number, get_block_meta, get_logs}
use bery_bc.Storage.Receipts.{ReceiptAnswer, get_receipt}
use bery_bc.Api.RpcForms.{
  RpcConfig, RpcTransaction, RpcBlock, FeeHistory, rpc_transaction, rpc_block, height_of_tag,
  from_of_tag,
}

module _ (tr : Trie) (db : Database) (f : Forms) (c : Crypto) where
  -- The consensus, if there is one: its height and its block store.
  pub record Chain : Type 0 where
    pub height : ℕ
    pub blocks : db.Db

  unfoldable pub height_of : Option Chain → ℕ
  height_of none = 0
  height_of (some k) = k.height

  abbrev pub stored : Option Chain → Text → Option (Option Located)
  stored none hash = some none
  stored (some k) hash = get_transaction db f c k.blocks hash

  -- `mempool.get(hash)`
  abbrev pub pending : Text → Mempool → Option Transaction
  pending hash pool = lookup (strip_0x hash) pool

  abbrev pub answer_pending : Option Transaction → Option (Option RpcTransaction)
  answer_pending none = some none
  answer_pending (some t) = Transaction.hash c t >>= λ h. some (some (rpc_transaction t h none))

  abbrev pub answer_stored : Option Located → Option Transaction → Option (Option RpcTransaction)
  answer_stored none waiting = answer_pending waiting
  answer_stored (some l) waiting = Transaction.hash c l.tx >>= λ h.
      some (some (rpc_transaction l.tx h (some (l.block_hash, l.block_height))))

  -- `eth_getTransactionByHash`
  unfoldable pub get_transaction_by_hash :
      Text → Mempool → Option Chain → Option (Option RpcTransaction)
  unfolding rpc_transaction
  get_transaction_by_hash param pool k =
      stored k (drop_0x param) >>= λ found. answer_stored found (pending (drop_0x param) pool)

  abbrev pub answer_block :
      RpcConfig → (ℕ → Option BlockMeta) → Option Block → Option (Option RpcBlock)
  answer_block g meta none = some none
  answer_block g meta (some b) =
      to_json c b >>= λ j. some (some (rpc_block g j (meta j.header.height)))

  -- `eth_getBlockByNumber`; NaN is the height of no block.
  unfoldable pub get_block_by_number : RpcConfig → Text → Option Chain → Option (Option RpcBlock)
  unfolding height_of_tag rpc_block
  get_block_by_number g tag none = some none
  get_block_by_number g tag (some k) =
      answer_block g (get_block_meta db f c k.blocks)
        (height_of_tag tag k.height >>= get_block db f c k.blocks)

  -- `eth_getBlockByHash`, which does not read the gas and the bloom.
  unfoldable pub rpc_block_by_hash : RpcConfig → Text → Option Chain → Option (Option RpcBlock)
  unfolding rpc_block
  rpc_block_by_hash g param none = some none
  rpc_block_by_hash g param (some k) =
      answer_block g (λ height. none) (get_block_by_hash db f c k.blocks (drop_0x param))

  unfoldable pub get_balance : Text → tr.Db → Text
  get_balance param d = ox ++ to_string 16 (get_account tr d (drop_0x param)).balance

  unfoldable pub get_transaction_count : Text → tr.Db → Text
  get_transaction_count param d = ox ++ to_string 16 (get_account tr d (drop_0x param)).nonce

  abbrev buffer_text : Option Bytes → Text
  buffer_text none = ox
  buffer_text (some b) = ox ++ to_hex b

  -- `eth_getCode`
  unfoldable pub code_at : Text → tr.Db → Text
  code_at param d =
      let a = get_account tr d (drop_0x param) in
      if same a.code_hash zero_hash then ox else buffer_text (get_code tr d a.code_hash)

  unfoldable pub get_storage_at : Text → Text → tr.Db → Text
  get_storage_at param key d =
      buffer_text (get_contract_storage tr d (drop_0x param) (from_hex (drop_0x key)))

  unfoldable pub get_transaction_receipt : Text → Option Chain → Option ReceiptAnswer
  get_transaction_receipt param none = none
  get_transaction_receipt param (some k) = get_receipt db f c k.blocks (drop_0x param)

  -- 'latest'
  abbrev latest : Text
  latest = b'l' ∷ b'a' ∷ b't' ∷ b'e' ∷ b's' ∷ b't' ∷ []

  abbrev or_latest : Text → Text
  or_latest [] = latest
  or_latest (x ∷ xs) = x ∷ xs

  -- `eth_feeHistory`
  unfoldable pub fee_history : RpcConfig → ℕ → Text → Option Chain → FeeHistory
  unfolding height_of
  fee_history g blocks newest k = record {
    oldest_block = if same (or_latest newest) latest then hex_number (height_of k) else newest;
    base_fee_per_gas = replicate blocks (hex_number g.base_fee);
    gas_used_ratio = replicate blocks 0;
  }

  abbrev logs_between :
      (Text → Text) → Chain → Text → List Text → Option ℕ → Option ℕ → Option (List LogAnswer)
  logs_between lower k address topics none to = get_head db f c k.blocks >>= λ head. some []
  logs_between lower k address topics (some from) none =
      get_head db f c k.blocks >>= λ head. some []
  logs_between lower k address topics (some from) (some to) =
      get_logs db f c lower
        (record { from_block = some from; to_block = some to; address = address; topics = topics })
        k.blocks

  -- `eth_getLogs`; a bound that is NaN lets the loop over the heights run over none.
  unfoldable pub logs_of_filter :
      (Text → Text) → Text → Text → Text → List Text → Option Chain → Option (List LogAnswer)
  unfolding from_of_tag height_of_tag
  logs_of_filter lower from to address topics none = some []
  logs_of_filter lower from to address topics (some k) =
      logs_between lower k address topics (from_of_tag from k.height) (height_of_tag to k.height)

  -- `eth_call`: the data that the contract returns.
  unfoldable pub eth_call : Machine → RpcConfig → CallParams → tr.Db → Option Text
  eth_call m g p d = evm_call tr c m g.chain_id (record p { to = drop_0x p.to }) d >>= λ r. some r.0

  unfoldable pub eth_estimate_gas : Machine → RpcConfig → CallParams → tr.Db → Option Text
  eth_estimate_gas m g p d = evm_estimate_gas tr c m g.chain_id (record p { to = drop_0x p.to }) d
