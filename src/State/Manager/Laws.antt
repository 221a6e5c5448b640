-- ===== src/State/Manager/Laws.antt =====
-- Accounts written to the state are read back, and a revert undoes the writes.
use bery_bc.Base.{◌≡◌, ◌∙◌, false, Option, some, List, [], ◌∷◌, same}
use bery_bc.Base.Throws.{◌>>=◌, >>=-eq-some, some-inj}
use bery_bc.Bytes.{Bytes, Text, from_hex}
use bery_bc.State.Account.{Account, IsStorable, serialize, deserialize-serialize, length-serialize}
use bery_bc.State.Manager.Defs.{Trie, IsLawful, get_account, put_account}

-- The writes of a list of accounts, in order.
unfoldable pub put_all : (tr : Trie) → List (Text × Account) → tr.Db → Option tr.Db
put_all tr [] d = some d
put_all tr ((k, a) ∷ l) d = do d' ← put_account tr k a d; put_all tr l d'

module _ (tr : Trie) (law : IsLawful tr) where
  pub put_account-eq :
      (k : Text) (a : Account) (d d' : tr.Db)
      → put_account tr k a d ≡ some d'
      → (buf : Bytes) × (serialize a ≡ some buf) × (tr.put (from_hex k) buf d ≡ d')
  unfolding put_account
  put_account-eq k a d d' e =
      let (buf, s, made) = >>=-eq-some (serialize a) (λ b. some (tr.put (from_hex k) b d)) e in
      (buf, s, some-inj made)

  -- A storable account can be written, is then read back as it was written, and the account of any
  -- other address reads as before.
  pub get-put_account :
      (k j : Text) (a : Account) (d : tr.Db)
      → IsStorable a
      → same (from_hex j) (from_hex k) ≡ false
      → (d' : tr.Db) × (put_account tr k a d ≡ some d')
        × (get_account tr d' k ≡ a)
        × (get_account tr d' j ≡ get_account tr d j)
  unfolding put_account get_account
  get-put_account k j a d s other =
      let (buf, written, read) = deserialize-serialize a s in
      (
        tr.put (from_hex k) buf d,
        rw written,
        rw (get_account, law.get-put_self, length-serialize a s buf written) read,
        rw (law.get-put_ne (from_hex j) (from_hex k) buf d other, get_account),
      )

  revert-put_all :
      (l : List (Text × Account)) (d d' : tr.Db)
      → put_all tr l d ≡ some d'
      → tr.revert d' ≡ tr.revert d
  unfolding put_all
  revert-put_all [] d d' e = rw (← some-inj e)
  revert-put_all ((k, a) ∷ l) d d' e =
      let (d1, one, rest) = >>=-eq-some (put_account tr k a d) (put_all tr l) e in
      let (buf, _, made) = put_account-eq k a d d1 one in
      revert-put_all l d1 d' rest ∙ rw (← made) (law.revert-put (from_hex k) buf d)

  -- After a checkpoint and any writes of accounts, a revert gives back the state at the checkpoint.
  pub revert_undoes :
      (l : List (Text × Account)) (d d' : tr.Db)
      → put_all tr l (tr.checkpoint d) ≡ some d'
      → tr.revert d' ≡ some d
  revert_undoes l d d' e = revert-put_all l (tr.checkpoint d) d' e ∙ law.revert-checkpoint d
