-- ===== src/Storage/Refinement.antt =====
-- Saving blocks is extending a function from heights to blocks, and the last one saved is the head.
use mathlib.Core.Path.{fun_ext}
use bery_bc.Base.{
  ℕ, ◌≡◌, refl, sym, ◌∙◌, ap, inl, inr, false, some, List, [], same, same_refl, ◌==◌, Bool-cases,
  if◌then◌else◌,
}
use bery_bc.Base.Throws.{◌>>=◌, >>=-eq-some}
use bery_bc.Bytes.{Bytes, Text, to_hex}
use bery_bc.Crypto.{Crypto}
use bery_bc.Core.Transaction.Json.{TransactionJson}
use bery_bc.Core.Block.{Block, header_hash}
use bery_bc.Core.Block.Json.{
  BlockJson, to_json, header_to_json, transactions_to_json, IsPlainHeader, AllPlain, written,
  from_json-to_json_block,
}
use bery_bc.Storage.Database.{Database, IsDatabase, Forms, IsReadable}
use bery_bc.Storage.Keys.{
  decimal, block_key, hash_key, head_key, same-block_key, block_key-hash_key, block_key-tx_key,
  block_key-address_key, block_key-head_key, hash_key-tx_key, hash_key-address_key,
  hash_key-head_key,
}
use bery_bc.Storage.Blocks.{index_transactions, save_head, save_block, get_block, get_head}
use bery_bc.Storage.Chain.{
  extend, get-put_ne, get-put_self, IsApart, index_transactions_total, get-index_transactions,
}

-- A block that can be stored: plain, with a JSON form.
pub record IsSavable (c : Crypto) (b : Block) : Type 0 where
  pub plain_header : IsPlainHeader b.header
  pub plain_transactions : AllPlain b.transactions
  pub json : BlockJson
  pub json_eq : to_json c b ≡ some json

module _ (db : Database) (law : IsDatabase db) (f : Forms) (readable : IsReadable f)
    (c : Crypto) where
  open db use {Db, get, put}

  abbrev pub prepared : Block → Text → BlockJson → Db → Db
  prepared b hash json d =
      put (hash_key hash) (decimal b.header.height)
        (put (block_key b.header.height) (f.block_text json) d)

  -- The parts of a save.
  pub record Saved (b : Block) (d d' : Db) : Type 0 where
    pub hash : Bytes
    pub hash_eq : header_hash c b.header ≡ some hash
    pub json : BlockJson
    pub json_eq : to_json c b ≡ some json
    pub indexed : Db
    pub indexed_eq :
        index_transactions db f c b.transactions b.header.height (prepared b (to_hex hash) json d)
        ≡ some indexed
    pub result_eq : save_head db f c b.header.height (to_hex hash) indexed ≡ d'

  json_parts :
      (b : Block) (json : BlockJson)
      → to_json c b ≡ some json
      → (hash : Bytes) × (js : List TransactionJson) × (header_hash c b.header ≡ some hash)
        × (transactions_to_json c b.transactions ≡ some js)
  unfolding to_json header_to_json
  json_parts b json e =
      let (h, head, e1) =
        >>=-eq-some (header_to_json c b.header)
          (λ h. transactions_to_json c b.transactions >>= λ ts.
            some (record { header = h; transactions = ts }))
          e in
      let (js, body, e2) =
        >>=-eq-some (transactions_to_json c b.transactions)
          (λ ts. some (record { header = h; transactions = ts })) e1 in
      let (hash, hashed, e3) =
        >>=-eq-some (header_hash c b.header) (λ x. some (written b.header x)) head in
      (hash, js, hashed, body)

  save_block-eq :
      (b : Block) (d indexed : Db) (hash : Bytes) (json : BlockJson)
      → header_hash c b.header ≡ some hash
      → to_json c b ≡ some json
      → index_transactions db f c b.transactions b.header.height (prepared b (to_hex hash) json d)
        ≡ some indexed
      → save_block db f c b d ≡ some (save_head db f c b.header.height (to_hex hash) indexed)
  unfolding save_block
  save_block-eq b d indexed hash json hashed formed done = rw (hashed, formed, done) refl

  -- A savable block is saved.
  pub save_block_total :
      (b : Block) (d : Db)
      → IsSavable c b
      → (d' : Db) × (save_block db f c b d ≡ some d') × Saved b d d'
  save_block_total b d p =
      let (hash, js, hashed, body) = json_parts b p.json p.json_eq in
      let (indexed, done) =
        index_transactions_total db law f c b.transactions js b.header.height
          (prepared b (to_hex hash) p.json d) body in
      (
        save_head db f c b.header.height (to_hex hash) indexed,
        save_block-eq b d indexed hash p.json hashed p.json_eq done,
        record {
          hash = hash;
          hash_eq = hashed;
          json = p.json;
          json_eq = p.json_eq;
          indexed = indexed;
          indexed_eq = done;
          result_eq = refl;
        },
      )

  block_key-IsApart : (height : ℕ) → IsApart db law f c (block_key height)
  block_key-IsApart height = record {
    no_tx = λ hash. block_key-tx_key height hash hash;
    no_address = λ address hash. block_key-address_key height address hash;
  }

  hash_key-IsApart : (h : Text) → IsApart db law f c (hash_key h)
  hash_key-IsApart h = record {
    no_tx = λ hash. hash_key-tx_key 0 h hash;
    no_address = λ address hash. hash_key-address_key h address hash;
  }

  module _ (b : Block) (d d' : Db) (v : Saved b d d') where
    -- What is under a key that is none of the indices.
    get-saved :
        (k : Text)
        → IsApart db law f c k
        → same k head_key ≡ false
        → get d' k ≡ get (prepared b (to_hex v.hash) v.json d) k
    unfolding save_head
    get-saved k a h =
        ap (λ x. get x k) (sym v.result_eq)
        ∙ get-put_ne db law f c k head_key _ v.indexed h
        ∙ get-index_transactions db law f c k b.transactions b.header.height _ v.indexed a
            v.indexed_eq

    pub get_block_data :
        (height : ℕ)
        → get d' (block_key height) ≡ (
            if height == b.header.height
            then some (f.block_text v.json)
            else get d (block_key height))
    get_block_data height =
        get-saved (block_key height) (block_key-IsApart height) (block_key-head_key height)
        ∙ get-put_ne db law f c (block_key height) _ _ _
            (block_key-hash_key height (to_hex v.hash) [])
        ∙ law.get-put (block_key height) (block_key b.header.height) (f.block_text v.json) d
        ∙ ap (λ t. if t then some (f.block_text v.json) else get d (block_key height))
            (same-block_key height b.header.height)

    pub get_hash_data : get d' (hash_key (to_hex v.hash)) ≡ some (decimal b.header.height)
    get_hash_data =
        get-saved (hash_key (to_hex v.hash)) (hash_key-IsApart (to_hex v.hash))
          (hash_key-head_key (to_hex v.hash))
        ∙ get-put_self db law f c (hash_key (to_hex v.hash)) _ _
            (same_refl (hash_key (to_hex v.hash)))

    pub get_block-saved :
        IsSavable c b
        → (height : ℕ) → get_block db f c d' height ≡ extend b (get_block db f c d) height
    unfolding get_block
    get_block-saved p height = elim (Bool-cases (height == b.header.height)) [
      | inl e ↦
          rw (get_block_data height, e, readable.parse-block v.json)
            (from_json-to_json_block c b v.json p.plain_header p.plain_transactions v.json_eq)
      | inr e ↦ rw (get_block_data height, e) refl
    ]

    head_data :
        get d' head_key
        ≡ some (f.head_text (record { height = b.header.height; hash = to_hex v.hash }))
    unfolding save_head
    head_data =
        ap (λ x. get x head_key) (sym v.result_eq)
        ∙ get-put_self db law f c head_key _ v.indexed (same_refl head_key)

    get_head-saved :
        get_head db f c d' ≡ some (some (record { height = b.header.height; hash = to_hex v.hash }))
    unfolding get_head
    get_head-saved = rw (head_data, get_head, readable.parse-head) refl

  -- A savable block is saved; then every look-up by height sees the chain extended by this block,
  -- and the head is its height and hash.
  pub save_block_refines :
      (b : Block) (d : Db)
      → IsSavable c b
      → (d' : Db) × (hash : Bytes) × (save_block db f c b d ≡ some d')
        × (header_hash c b.header ≡ some hash)
        × (get_block db f c d' ≡ extend b (get_block db f c d))
        × (get_head db f c d'
            ≡ some (some (record { height = b.header.height; hash = to_hex hash })))
  save_block_refines b d p =
      let (d', done, v) = save_block_total b d p in
      (d', v.hash, done, v.hash_eq, fun_ext (get_block-saved b d d' v p), get_head-saved b d d' v)
