-- ===== src/Evm/Writes.antt =====
-- The entries of the account trie that the writes of the adapter leave alone.
use bery_bc.Base.{
  ◌≡◌, refl, sym, ◌∙◌, ap, Bool, true, false, Option, none, some, [], ◌∷◌, length, same, not, ◌==◌,
}
use bery_bc.Base.TextMap.{TextMap}
use bery_bc.Base.Throws.{by_test, by_option}
use bery_bc.Bytes.{Bytes, Text, from_hex}
use bery_bc.Crypto.{Crypto}
use bery_bc.State.Account.{Account}
use bery_bc.State.Manager.{Trie, IsLawful, get_account, put_account, put_code, put_contract_storage}
use bery_bc.State.Manager.Laws.{put_account-eq}
use bery_bc.Evm.Types.{Machine}
use bery_bc.Evm.Defs.{persist_storage, persist_dump, persist_code, then_storage, persist_account}

-- Code and storage are not entries of the account trie.
pub record IsSeparate (tr : Trie) : Type 0 where
  pub get-raw_put : (x k v : Bytes) (d : tr.Db) → tr.get (tr.raw_put k v d) x ≡ tr.get d x
  pub get-storage_put :
      (x k v : Bytes) (root : Option Bytes) (d : tr.Db)
      → tr.get (tr.storage_put root k v d).0 x ≡ tr.get d x

module _ (tr : Trie) (law : IsLawful tr) (apart : IsSeparate tr) (x : Bytes) where
  -- The entry at `x` stays.
  abbrev pub Keeps : tr.Db → tr.Db → Type 0
  Keeps d d' = tr.get d' x ≡ tr.get d x

  pub put_account-Keeps :
      (address : Text) (a : Account) (d d' : tr.Db)
      → same x (from_hex address) ≡ false
      → put_account tr address a d ≡ some d'
      → Keeps d d'
  put_account-Keeps address a d d' other e =
      let (buf, _, made) = put_account-eq tr law address a d d' e in
      ap (λ y. tr.get y x) (sym made) ∙ law.get-put_ne x (from_hex address) buf d other

  put_contract_storage-Keeps :
      (address : Text) (key value : Bytes) (d d' : tr.Db)
      → same x (from_hex address) ≡ false
      → put_contract_storage tr address key value d ≡ some d'
      → Keeps d d'
  unfolding put_contract_storage
  put_contract_storage-Keeps address key value d d' other e =
      put_account-Keeps address _ _ d' other e ∙ apart.get-storage_put x key value _ d

  module _ (c : Crypto) (m : Machine) (address : Text)
      (other : same x (from_hex address) ≡ false) where
    persist_storage-Keeps :
        (l : TextMap Text) (d : tr.Db) → Keeps d (persist_storage tr c m address l d)
    unfolding persist_storage
    persist_storage-Keeps [] d = refl
    persist_storage-Keeps ((key, value) ∷ l) d =
        by_option (Keeps d) (put_contract_storage tr address (from_hex key) (from_hex value) d)
          (λ e. refl)
          (λ d1 e.
            persist_storage-Keeps l d1
            ∙ put_contract_storage-Keeps address (from_hex key) (from_hex value) d d1 other e)

    abbrev KeepsBoth : tr.Db → tr.Db × Bool → Type 0
    KeepsBoth d r = Keeps d r.0

    persist_code-Keeps :
        (a : Account) (code : Bytes) (d : tr.Db) → Keeps d (persist_code tr c m address a code d).0
    unfolding persist_code put_code
    persist_code-Keeps a [] d = refl
    persist_code-Keeps a (b ∷ bs) d =
        by_option (KeepsBoth d)
          (put_account tr address (record a { code_hash = c.keccak_256 (b ∷ bs) })
            (put_code tr (c.keccak_256 (b ∷ bs)) (b ∷ bs) d))
          (λ e. apart.get-raw_put x _ (b ∷ bs) d)
          (λ d2 e. put_account-Keeps address _ _ d2 other e ∙ apart.get-raw_put x _ (b ∷ bs) d)

    then_storage-Keeps :
        (vm : m.Vm) (d : tr.Db) (r : tr.Db × Bool)
        → Keeps d r.0
        → Keeps d (then_storage tr c m vm address r).0
    then_storage-Keeps vm d (d1, false) h = h
    then_storage-Keeps vm d (d1, true) h = by_dump (m.dump_vm_storage vm address) ∙ h
      where
        by_dump : (o : Option (TextMap Text)) → Keeps d1 (persist_dump tr c m address o d1)
        by_dump none = refl
        by_dump (some l) = persist_storage-Keeps l d1

    pub persist_account-Keeps :
        (vm : m.Vm) (d : tr.Db) → Keeps d (persist_account tr c m vm address d).0
    unfolding persist_account
    persist_account-Keeps vm d =
        by_test (KeepsBoth d) (not (length address == 40)) (λ e. refl)
          (λ e.
            by_test (KeepsBoth d) (not (m.is_address address)) (λ e. refl)
              (λ e.
                by_option (KeepsBoth d) (m.get_vm_account vm address) (λ e. refl)
                  (λ v e.
                    by_option (KeepsBoth d)
                      (put_account tr address
                        (record (get_account tr d address) { balance = v.balance; nonce = v.nonce })
                        d)
                      (λ e. refl)
                      (λ d1 e. then_storage-Keeps vm d _ (
                        persist_code-Keeps
                          (record (get_account tr d address) {
                            balance = v.balance;
                            nonce = v.nonce;
                          })
                          (m.get_vm_code vm address) d1
                        ∙ put_account-Keeps address _ d d1 other e)))))
