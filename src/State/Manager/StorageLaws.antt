-- ===== src/State/Manager/StorageLaws.antt =====
-- What is written to the storage of a contract is read back.
use bery_bc.Base.{◌≡◌, false, Option, none, some, length, same, if◌then◌else◌, ◌==◌}
use bery_bc.Bytes.{Bytes, Text, from_hex}
use bery_bc.State.Account.{Account, IsStorable, zero_hash, deserialize-serialize, length-serialize}
use bery_bc.State.Manager.Defs.{
  Trie, IsLawful, get_account, put_account, get_contract_storage, put_contract_storage,
}

-- A put into a storage trie changes no account and gives a root of 32 bytes, not all zero, under which
-- the value is found, also after a further put of an account; an empty value stands for none.
pub record KeepsStorage (tr : Trie) : Type 0 where
  pub get-storage_put :
      (root : Option Bytes) (key v : Bytes) (d : tr.Db) (k : Bytes)
      → tr.get (tr.storage_put root key v d).0 k ≡ tr.get d k
  pub storage_root_length :
      (root : Option Bytes) (key v : Bytes) (d : tr.Db)
      → length (tr.storage_put root key v d).1 ≡ 32
  pub storage_root_nonzero :
      (root : Option Bytes) (key v : Bytes) (d : tr.Db)
      → same (tr.storage_put root key v d).1 zero_hash ≡ false
  pub storage_get-storage_put :
      (root : Option Bytes) (key v : Bytes) (d : tr.Db) (k buf : Bytes)
      → tr.storage_get
          (tr.put k buf (tr.storage_put root key v d).0)
          (some (tr.storage_put root key v d).1)
          key
        ≡ (if length v == 0 then none else some v)

module _ (tr : Trie) (law : IsLawful tr) (keeps : KeepsStorage tr) where
  put_under_root :
      (address : Text) (key v : Bytes) (root : Option Bytes) (a : Account) (d : tr.Db)
      → IsStorable a
      → (d' : tr.Db) × (put_account tr address
            (record a { storage_root = (tr.storage_put root key v d).1 })
            (tr.storage_put root key v d).0
          ≡ some d')
        × (get_contract_storage tr d' address key ≡ (if length v == 0 then none else some v))
  unfolding put_account get_contract_storage get_account
  put_under_root address key v root a d s =
      let a' : Account = record a { storage_root = (tr.storage_put root key v d).1 } in
      let s' : IsStorable a' = record {
        nonce_value = s.nonce_value;
        nonce_nat = s.nonce_nat;
        nonce_fits = s.nonce_fits;
        balance_value = s.balance_value;
        balance_nat = s.balance_nat;
        balance_fits = s.balance_fits;
        root_length = keeps.storage_root_length root key v d;
        code_length = s.code_length;
      } in
      let (buf, written, read) = deserialize-serialize a' s' in
      (
        tr.put (from_hex address) buf (tr.storage_put root key v d).0,
        rw written,
        rw
            (
              get_contract_storage,
              get_account,
              law.get-put_self,
              length-serialize a' s' buf written,
              read,
              keeps.storage_root_nonzero root key v d,
            )
            (keeps.storage_get-storage_put root key v d (from_hex address) buf),
      )

  -- A write to the storage of a contract goes through, and the value is read back under its key.
  pub get-put_contract_storage :
      (address : Text) (key v : Bytes) (d : tr.Db)
      → IsStorable (get_account tr d address)
      → (d' : tr.Db) × (put_contract_storage tr address key v d ≡ some d')
        × (get_contract_storage tr d' address key ≡ (if length v == 0 then none else some v))
  unfolding put_contract_storage
  get-put_contract_storage address key v d s =
      put_under_root address key v
        (if same (get_account tr d address).storage_root zero_hash
          then none
          else some (get_account tr d address).storage_root)
        (get_account tr d address) d s
