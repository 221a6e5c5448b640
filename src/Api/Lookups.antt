-- ===== src/Api/Lookups.antt =====
-- The handlers that only read: a block, a transaction, an account, the stakers, and the contracts of the
-- registry. A parameter of a path is a text; an identifier of a block that begins with a blank or a plus
-- sign is outside of the model.
use bery_bc.Base.{ℕ, Option, none, some, List, [], ◌∷◌, ◌++◌, length, ◌==◌, if◌then◌else◌}
use bery_bc.Base.Int.{ℤ, pos, ◌+ℤ◌}
use bery_bc.Base.Throws.{◌>>=◌}
use bery_bc.Base.TextMap.{lookup}
use bery_bc.Bytes.{Bytes, Text, from_hex, of_be, to_string}
use bery_bc.Core.Block.{Block}
use bery_bc.Core.Block.Json.{BlockJson, to_json}
use bery_bc.Core.Transaction.{Transaction, staking_address}
use bery_bc.Core.Transaction.Json.{TransactionJson}
use bery_bc.Core.Transaction.Json
use bery_bc.Crypto.{Crypto}
use bery_bc.Mempool.{Mempool}
use bery_bc.State.Manager.{Trie, get_account, get_contract_storage}
use bery_bc.Storage.Blocks.{
  Located, strip_0x, parse_int, get_block, get_block_by_hash, get_transaction,
}
use bery_bc.Storage.Bloom.{drop_0x}
use bery_bc.Storage.Database.{Database, Forms}
use bery_bc.Storage.Logs.{ox}
use bery_bc.Vm.Staking.{JsonLists, all_stakers_key}
use bery_bc.Api.Fields.{is_valid_address}
use bery_bc.Api.Registry.{Registry, VerifiedContract, get_contract, list_contracts}
use bery_bc.Api.Rpc.{Chain}
use bery_bc.Api.RpcForms.{after_0x}

-- An answer with status 200, 400, 404, 500 or 503.
pub data Found (A : Type 0) : Type 0 where
  found : A → Found A
  bad_request not_found server_error not_ready : Found A

-- What a look-up answers; a throw is the outer `none`.
abbrev pub found_or_not : {A : Type 0} → Option (Option A) → Found A
found_or_not none = server_error
found_or_not (some none) = not_found
found_or_not (some (some a)) = found a

pub record AccountAnswer : Type 0 where
  pub address : Text
  pub balance : Text
  pub nonce : Text

pub record StakeAnswer : Type 0 where
  pub address : Text
  pub stake : Text

pub record StakingInfo : Type 0 where
  pub total_staked : Text
  pub stakers : List StakeAnswer

-- `status` is 'confirmed' with a height and a hash of the block, and 'pending' without.
pub record TxStatus : Type 0 where
  pub hash : Text
  pub mined : Option (ℕ × Text)
  pub tx : TransactionJson

-- `new BN(stakeBuf)`, or zero.
abbrev pub stake_number : Option Bytes → ℤ
stake_number none = pos 0
stake_number (some b) = pos (of_be b)

module _ (tr : Trie) where
  -- `GET /v1/account/:address` and `GET /balance/:address`
  unfoldable pub find_account : Text → tr.Db → Found AccountAnswer
  find_account param d =
      let address = strip_0x param in
      let a = get_account tr d address in
      if is_valid_address address
      then found (record {
        address = address;
        balance = to_string 10 a.balance;
        nonce = to_string 10 a.nonce;
      })
      else bad_request

  unfoldable pub stake_at : Text → tr.Db → ℤ
  stake_at address d = stake_number (get_contract_storage tr d staking_address (from_hex address))

  -- `GET /v1/staking/:address`
  unfoldable pub find_stake : Text → tr.Db → Found StakeAnswer
  unfolding stake_at
  find_stake param d =
      let address = strip_0x param in
      if is_valid_address address
      then found (record { address = ox ++ address; stake = to_string 10 (stake_at address d) })
      else bad_request

  abbrev parsed_list : JsonLists → Option Bytes → List Text
  parsed_list j none = []
  parsed_list j (some []) = []
  parsed_list j (some (b ∷ bs)) = elim (j.parse (b ∷ bs)) [ none ↦ [] | some l ↦ l ]

  -- The list of stakers; a text that does not parse counts as empty.
  unfoldable pub stakers_of : JsonLists → tr.Db → List Text
  stakers_of j d = parsed_list j (get_contract_storage tr d staking_address all_stakers_key)

  -- The loop over the stakers, with the total before it.
  unfoldable pub stakes_of : List Text → ℤ → tr.Db → ℤ × List StakeAnswer
  unfolding stake_at
  stakes_of [] total d = (total, [])
  stakes_of (s ∷ ss) total d =
      let stake = stake_at (strip_0x s) d in
      let (sum, items) = stakes_of ss (total +ℤ stake) d in
      (sum, record { address = ox ++ s; stake = to_string 10 stake } ∷ items)

  -- `GET /v1/staking/info`
  unfoldable pub staking_info : JsonLists → tr.Db → StakingInfo
  unfolding stakers_of stakes_of
  staking_info j d =
      let (total, items) = stakes_of (stakers_of j d) (pos 0) d in
      record { total_staked = to_string 10 total; stakers = items }

-- `GET /v1/contracts/:address`
unfoldable pub find_contract : (Text → Text) → Text → Registry → Found VerifiedContract
find_contract lower param m =
    let address = strip_0x param in
    if is_valid_address address
    then found_or_not (some (get_contract lower address m))
    else bad_request

-- `GET /v1/contracts`
unfoldable pub all_contracts : Registry → List VerifiedContract
all_contracts m = list_contracts 100 m

module _ (tr : Trie) (db : Database) (f : Forms) (c : Crypto) where
  abbrev block_answer : Option Block → Found BlockJson
  block_answer none = not_found
  block_answer (some b) = found_or_not (to_json c b >>= λ j. some (some j))

  abbrev by_hash_or_height : Option Text → Text → db.Db → Option Block
  by_hash_or_height (some digits) id d = get_block_by_hash db f c d (drop_0x id)
  by_hash_or_height none id d =
      if length id == 64
      then get_block_by_hash db f c d (drop_0x id)
      else (parse_int id >>= get_block db f c d)

  -- `GET /v1/block/:id`, the first of two handlers; NaN is the height of no block.
  unfoldable pub find_block : Text → Option (Chain tr db f c) → Found BlockJson
  find_block id none = not_ready
  find_block id (some k) = block_answer (by_hash_or_height (after_0x id) id k.blocks)

  abbrev pending_answer : Text → Option Transaction → Found TxStatus
  pending_answer hash none = not_found
  pending_answer hash (some t) =
      found_or_not
        (Json.to_json c t >>= λ j. some (some (record { hash = hash; mined = none; tx = j })))

  abbrev status_answer : Text → Mempool → Option (Option Located) → Found TxStatus
  status_answer hash pool none = server_error
  status_answer hash pool (some none) =
      pending_answer (strip_0x hash) (lookup (strip_0x (strip_0x hash)) pool)
  status_answer hash pool (some (some l)) = found_or_not (
      Json.to_json c l.tx >>= λ j.
      some (some (record { hash = hash; mined = some (l.block_height, l.block_hash); tx = j })))

  -- `GET /v1/tx/:hash`
  unfoldable pub find_transaction : Text → Mempool → Option (Chain tr db f c) → Found TxStatus
  find_transaction hash pool none = not_ready
  find_transaction hash pool (some k) =
      status_answer hash pool (get_transaction db f c k.blocks hash)

  abbrev height_answer : Option (Chain tr db f c) → Found ℕ
  height_answer none = not_ready
  height_answer (some k) = found k.height

  -- `GET /block/last`
  unfoldable pub last_block : Option (Chain tr db f c) → Found ℕ
  last_block k = height_answer k
