-- ===== src/Storage/Chain.antt =====
-- The block store as a function from heights to blocks.
use bery_bc.Base.{
  ℕ, ◌≡◌, refl, sym, ◌∙◌, ap, inl, inr, true, false, Option, some, List, [], ◌∷◌, length, same,
  ◌==◌, Bool-cases, if◌then◌else◌,
}
use bery_bc.Base.Throws.{◌>>=◌, >>=-eq-some, some-inj}
use bery_bc.Bytes.{Bytes, Text, to_hex}
use bery_bc.Crypto.{Crypto}
use bery_bc.Core.Transaction.{Transaction}
use bery_bc.Core.Transaction
use bery_bc.Core.Transaction.Json.{TransactionJson}
use bery_bc.Core.Transaction.Json as TransactionForm
use bery_bc.Core.Block.{Block}
use bery_bc.Core.Block.Json.{transactions_to_json}
use bery_bc.Storage.Database.{Database, IsDatabase, Forms}
use bery_bc.Storage.Keys.{decimal, tx_key, address_key}
use bery_bc.Storage.Blocks.{strip_0x, index_address, index_transactions}

-- What the store is for: a block for each height.
abbrev pub Chain : Type 0
Chain = ℕ → Option Block

abbrev pub extend : Block → Chain → Chain
extend b chain height = if height == b.header.height then some b else chain height

module _ (db : Database) (law : IsDatabase db) (f : Forms) (c : Crypto) where
  open db use {Db, get, put}

  -- A put under another key is not seen.
  pub get-put_ne :
      (j k : Text) (v : Bytes) (d : Db) → same j k ≡ false → get (put k v d) j ≡ get d j
  get-put_ne j k v d h = law.get-put j k v d ∙ rw (h) refl

  pub get-put_self : (k : Text) (v : Bytes) (d : Db) → same k k ≡ true → get (put k v d) k ≡ some v
  get-put_self k v d h = law.get-put k k v d ∙ rw (h) refl

  -- A key that no transaction is indexed under.
  pub record IsApart (k : Text) : Type 0 where
    pub no_tx : (hash : Text) → same k (tx_key hash) ≡ false
    pub no_address : (address hash : Text) → same k (address_key address hash) ≡ false

  get-index_address :
      (k address hash : Text) (height : ℕ) (d : Db)
      → IsApart k
      → get (index_address db f c address hash height d) k ≡ get d k
  unfolding index_address
  get-index_address k address hash height d a =
      elim (Bool-cases (length (strip_0x address) == 40)) [
        | inl e ↦ rw (e) (get-put_ne k _ _ d (a.no_address (strip_0x address) hash))
        | inr e ↦ rw (e) refl
      ]

  abbrev indexed_one : Transaction → Text → ℕ → Db → Db
  indexed_one t hash height d =
      index_address db f c t.to hash height
        (index_address db f c t.from hash height (put (tx_key hash) (decimal height) d))

  get-indexed_one :
      (k : Text) (t : Transaction) (hash : Text) (height : ℕ) (d : Db)
      → IsApart k
      → get (indexed_one t hash height d) k ≡ get d k
  get-indexed_one k t hash height d a =
      get-index_address k t.to hash height _ a
      ∙ get-index_address k t.from hash height _ a
      ∙ get-put_ne k (tx_key hash) (decimal height) d (a.no_tx hash)

  -- The indexing of transactions whose JSON forms exist succeeds.
  pub index_transactions_total :
      (ts : List Transaction) (js : List TransactionJson) (height : ℕ) (d : Db)
      → transactions_to_json c ts ≡ some js
      → (d' : Db) × (index_transactions db f c ts height d ≡ some d')
  unfolding transactions_to_json TransactionForm.to_json index_transactions
  index_transactions_total [] js height d e = (d, refl)
  index_transactions_total (t ∷ ts) js height d e =
      let (j, one, e1) =
        >>=-eq-some (TransactionForm.to_json c t)
          (λ j. transactions_to_json c ts >>= λ js. some (j ∷ js)) e in
      let (rest, more, e2) = >>=-eq-some (transactions_to_json c ts) (λ js. some (j ∷ js)) e1 in
      let (hash, hashed, e3) =
        >>=-eq-some (Transaction.hash c t) (λ h. some (TransactionForm.written t h)) one in
      let (d', done) =
        index_transactions_total ts rest height (indexed_one t (to_hex hash) height d) more in
      (d', rw (hashed, index_transactions) done)

  pub get-index_transactions :
      (k : Text) (ts : List Transaction) (height : ℕ) (d d' : Db)
      → IsApart k
      → index_transactions db f c ts height d ≡ some d'
      → get d' k ≡ get d k
  unfolding index_transactions
  get-index_transactions k [] height d d' a e = ap (λ x. get x k) (sym (some-inj e))
  get-index_transactions k (t ∷ ts) height d d' a e =
      let (hash, hashed, e1) =
        >>=-eq-some (Transaction.hash c t)
          (λ h. index_transactions db f c ts height (indexed_one t (to_hex h) height d)) e in
      get-index_transactions k ts height (indexed_one t (to_hex hash) height d) d' a e1
      ∙ get-indexed_one k t (to_hex hash) height d a
