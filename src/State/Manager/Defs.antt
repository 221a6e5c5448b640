-- ===== src/State/Manager/Defs.antt =====
-- The class `StateManager`. The trie and its database are not under src/: they are the record
-- `Trie`, and `IsLawful` is the documented behaviour that the node relies on.
use bery_bc.Base.{◌≡◌, false, Option, none, some, [], ◌∷◌, ◌++◌, length, same, if◌then◌else◌, ◌==◌}
use bery_bc.Base.TextMap.{TextMap}
use bery_bc.Base.Throws.{◌>>=◌}
use bery_bc.Bytes.{Bytes, Text, from_hex}
use bery_bc.State.Account.{Account, empty_account, zero_hash, serialize, deserialize}

-- `Db` is the whole store: the account trie with its checkpoints, the storage tries, and the raw
-- entries. `commit` and `revert` throw where there is no checkpoint.
pub record Trie : Type 1 where
  pub Db : Type 0
  pub get : Db → Bytes → Option Bytes
  pub put : Bytes → Bytes → Db → Db
  pub root : Db → Bytes
  pub at_root : Bytes → Db → Db
  pub checkpoint : Db → Db
  pub commit : Db → Option Db
  pub revert : Db → Option Db
  pub raw_get : Db → Bytes → Option Bytes
  pub raw_put : Bytes → Bytes → Db → Db
  pub storage_get : Db → Option Bytes → Bytes → Option Bytes
  pub storage_put : Option Bytes → Bytes → Bytes → Db → Db × Bytes
  pub storage_dump : Db → Bytes → TextMap Text

-- A put is read back, changes no other key, and does not touch the checkpoints; a revert goes back
-- to the latest checkpoint.
pub record IsLawful (tr : Trie) : Type 0 where
  pub get-put_self :
      (k v : Bytes) (d : tr.Db) → tr.get (tr.put k v d) k ≡ (if length v == 0 then none else some v)
  pub get-put_ne :
      (j k v : Bytes) (d : tr.Db) → same j k ≡ false → tr.get (tr.put k v d) j ≡ tr.get d j
  pub revert-checkpoint : (d : tr.Db) → tr.revert (tr.checkpoint d) ≡ some d
  pub revert-put : (k v : Bytes) (d : tr.Db) → tr.revert (tr.put k v d) ≡ tr.revert d

module _ (tr : Trie) where
  open tr use {Db, at_root, get, put, raw_get, raw_put, storage_get, storage_put, storage_dump}

  -- `trie.root = root`
  unfoldable pub set_root : Bytes → Db → Db
  set_root root d = at_root root d

  unfoldable pub get_account : Db → Text → Account
  get_account d address = elim (get d (from_hex address)) [
    | none ↦ empty_account
    | some data_bytes ↦ deserialize data_bytes
  ]

  -- `none` where the account does not fit its serialization.
  unfoldable pub put_account : Text → Account → Db → Option Db
  put_account address a d = do data_bytes ← serialize a; some (put (from_hex address) data_bytes d)

  -- 'CODE:'
  abbrev code_prefix : Bytes
  code_prefix = b'C' ∷ b'O' ∷ b'D' ∷ b'E' ∷ b':' ∷ []

  unfoldable pub put_code : Bytes → Bytes → Db → Db
  put_code code_hash code d = raw_put (code_prefix ++ code_hash) code d

  unfoldable pub get_code : Db → Bytes → Option Bytes
  get_code d code_hash = raw_get d (code_prefix ++ code_hash)

  unfoldable pub get_contract_storage : Db → Text → Bytes → Option Bytes
  get_contract_storage d address key =
      let a = get_account d address in
      if same a.storage_root zero_hash then none else storage_get d (some a.storage_root) key

  -- A fresh trie for an account that has none.
  unfoldable pub put_contract_storage : Text → Bytes → Bytes → Db → Option Db
  unfolding put_account
  put_contract_storage address key value d =
      let a = get_account d address in
      let old = if same a.storage_root zero_hash then none else some a.storage_root in
      let (d', root) = storage_put old key value d in
      put_account address (record a { storage_root = root }) d'

  unfoldable pub dump_contract_storage : Db → Text → TextMap Text
  dump_contract_storage d address =
      let a = get_account d address in
      if same a.storage_root zero_hash then [] else storage_dump d a.storage_root
