-- ===== src/Storage/Lookups.antt =====
-- What is found under the hash of a block or of a transaction.
use bery_bc.Base.{
  ℕ, suc, ◌+◌, ◌*◌, ◌≡◌, refl, sym, ◌∙◌, ap, inl, inr, some, List, [], ◌∷◌, ◌++◌, same, same_refl,
  same-eq, ◌==◌, Bool-cases, Option-cases, ==_iff, if◌then◌else◌, arith, length,
}
use bery_bc.Base.Int.{pos}
use bery_bc.Base.Throws.{>>=-eq-some, some-inj, none-ne-some}
use bery_bc.Bytes.{Bytes, Text, to_hex, to_string, digits}
use bery_bc.Bytes.Decimal.{digit_value, read_from, read_from-digits, read_from-none, to_string-cons}
use bery_bc.Crypto.{Crypto}
use bery_bc.Core.Transaction.{Transaction}
use bery_bc.Core.Transaction
use bery_bc.Core.Block.{Block, header_hash}
use bery_bc.Storage.Database.{Database, IsDatabase, Forms, IsReadable}
use bery_bc.Storage.Keys.{decimal, tx_key, same-tx_key, tx_key-address_key}
use bery_bc.Storage.Blocks.{
  strip_0x, index_address, index_transactions, save_block, get_block, get_block_by_hash, parse_int,
  parse_digits, find_hash,
}
use bery_bc.Storage.Chain.{get-put_ne}
use bery_bc.Storage.Refinement.{IsSavable, Saved, save_block_total, get_block-saved, get_hash_data}

parse_digits-eq :
    (cs : Text) (acc n : ℕ) → read_from (some acc) cs ≡ some n → parse_digits acc cs ≡ n
unfolding parse_digits read_from
parse_digits-eq [] acc n e = some-inj e
parse_digits-eq (c ∷ cs) acc n e = elim (Option-cases (digit_value c)) [
  | inl bad ↦ absurd (none-ne-some {a = n} (sym (read_from-none cs) ∙ (rw bad at e)))
  | inr (d, good) ↦ rw (good, parse_digits) (parse_digits-eq cs (acc * 10 + d) n (rw good at e))
]

parse_int-eq :
    (cs : Text) (c n : ℕ) → read_from (some 0) (c ∷ cs) ≡ some n → parse_int (c ∷ cs) ≡ some n
unfolding parse_int read_from
parse_int-eq cs c n e = elim (Option-cases (digit_value c)) [
  | inl bad ↦ absurd (none-ne-some {a = n} (sym (read_from-none cs) ∙ (rw bad at e)))
  | inr (d, good) ↦ rw (good, parse_int) (ap some (parse_digits-eq (c ∷ cs) 0 n e))
]

-- A height that was written is read.
pub parse_int-decimal : (n : ℕ) → parse_int (decimal n) ≡ some n
unfolding to_string digits
parse_int-decimal n =
    let (c, cs, shape) = to_string-cons (pos n) in
    ap parse_int shape
    ∙ parse_int-eq cs c n
        (ap (read_from (some 0)) (sym shape) ∙ read_from-digits (suc n) n (omega arith))

module _ (db : Database) (law : IsDatabase db) (f : Forms) (readable : IsReadable f)
    (c : Crypto) where
  open db use {Db, get, put}

  index_address-tx_key :
      (h address hash : Text) (height : ℕ) (d : Db)
      → get (index_address db f c address hash height d) (tx_key h) ≡ get d (tx_key h)
  unfolding index_address
  index_address-tx_key h address hash height d =
      elim (Bool-cases (length (strip_0x address) == 40)) [
        | inl e ↦
            rw (e) (
              get-put_ne db law f c (tx_key h) _ _ d (tx_key-address_key h (strip_0x address) hash))
        | inr e ↦ rw (e) refl
      ]

  abbrev indexed_one : Transaction → Text → ℕ → Db → Db
  indexed_one t hash height d =
      index_address db f c t.to hash height
        (index_address db f c t.from hash height (put (tx_key hash) (decimal height) d))

  indexed_one-eq :
      (h : Text) (t : Transaction) (hash : Text) (height : ℕ) (d : Db)
      → get (indexed_one t hash height d) (tx_key h)
        ≡ (if same h hash then some (decimal height) else get d (tx_key h))
  indexed_one-eq h t hash height d =
      index_address-tx_key h t.to hash height _
      ∙ index_address-tx_key h t.from hash height _
      ∙ law.get-put (tx_key h) (tx_key hash) (decimal height) d
      ∙ ap (λ s. if s then some (decimal height) else get d (tx_key h)) (same-tx_key h hash)

  -- A transaction that is indexed at this height stays so.
  keeps_location :
      (h : Text) (ts : List Transaction) (height : ℕ) (d d' : Db)
      → get d (tx_key h) ≡ some (decimal height)
      → index_transactions db f c ts height d ≡ some d'
      → get d' (tx_key h) ≡ some (decimal height)
  unfolding index_transactions
  keeps_location h [] height d d' there e = ap (λ x. get x (tx_key h)) (sym (some-inj e)) ∙ there
  keeps_location h (t ∷ ts) height d d' there e =
      let (hash, hashed, e1) =
        >>=-eq-some (Transaction.hash c t)
          (λ x. index_transactions db f c ts height (indexed_one t (to_hex x) height d)) e in
      keeps_location h ts height (indexed_one t (to_hex hash) height d) d'
        (indexed_one-eq h t (to_hex hash) height d ∙ (elim (Bool-cases (same h (to_hex hash))) [
          | inl s ↦ rw (s) refl
          | inr s ↦ rw (s) there
        ]))
        e1

  pub location_indexed :
      (before : List Transaction) (t : Transaction) (after : List Transaction) (h : Bytes)
      (height : ℕ) (d d' : Db)
      → Transaction.hash c t ≡ some h
      → index_transactions db f c (before ++ t ∷ after) height d ≡ some d'
      → get d' (tx_key (to_hex h)) ≡ some (decimal height)
  unfolding index_transactions
  location_indexed [] t after h height d d' hashed e =
      keeps_location (to_hex h) after height (indexed_one t (to_hex h) height d) d'
        (indexed_one-eq (to_hex h) t (to_hex h) height d ∙ rw (same_refl (to_hex h)) refl)
        (rw (hashed) at e)
  location_indexed (u ∷ before) t after h height d d' hashed e =
      let (hash, _, e1) =
        >>=-eq-some (Transaction.hash c u)
          (λ x.
            index_transactions db f c (before ++ t ∷ after) height
              (indexed_one u (to_hex x) height d))
          e in
      location_indexed before t after h height (indexed_one u (to_hex hash) height d) d' hashed e1

  -- The search ends at a transaction of that hash.
  pub find_hash-eq :
      (before : List Transaction) (t : Transaction) (after : List Transaction) (h : Bytes)
      (height : ℕ) (d d' : Db)
      → Transaction.hash c t ≡ some h
      → index_transactions db f c (before ++ t ∷ after) height d ≡ some d'
      → (u : Transaction) × (g : Bytes) × (find_hash db f c (to_hex h) (before ++ t ∷ after)
          ≡ some (some u))
        × (Transaction.hash c u ≡ some g)
        × (to_hex g ≡ to_hex h)
  unfolding find_hash index_transactions
  find_hash-eq [] t after h height d d' hashed e =
      (t, h, rw (hashed, same_refl (to_hex h)) refl, hashed, refl)
  find_hash-eq (u ∷ before) t after h height d d' hashed e =
      let (g, first, e1) =
        >>=-eq-some (Transaction.hash c u)
          (λ x.
            index_transactions db f c (before ++ t ∷ after) height
              (indexed_one u (to_hex x) height d))
          e in
      let (v, k, found, of_v, equal) =
        find_hash-eq before t after h height (indexed_one u (to_hex g) height d) d' hashed e1 in
      elim (Bool-cases (same (to_hex g) (to_hex h))) [
        | inl s ↦ (u, g, rw (first, s, find_hash) refl, first, same-eq (to_hex g) (to_hex h) s)
        | inr s ↦ (v, k, rw (first, s, find_hash) found, of_v, equal)
      ]

  module _ (b : Block) (d d' : Db) (p : IsSavable c b) (v : Saved db law f readable c b d d') where
    pub stored_block : get_block db f c d' b.header.height ≡ some b
    stored_block =
        get_block-saved db law f readable c b d d' v p b.header.height
        ∙ rw ((==_iff b.header.height b.header.height).1 refl) refl

    pub found_by_hash : get_block_by_hash db f c d' (to_hex v.hash) ≡ some b
    unfolding get_block_by_hash
    found_by_hash =
        rw (get_hash_data db law f readable c b d d' v, parse_int-decimal b.header.height)
          stored_block

  -- A savable block is saved, and is found under its hash.
  pub save-get_block_by_hash :
      (b : Block) (d : Db)
      → IsSavable c b
      → (d' : Db) × (hash : Bytes) × (save_block db f c b d ≡ some d')
        × (header_hash c b.header ≡ some hash)
        × (get_block_by_hash db f c d' (to_hex hash) ≡ some b)
  save-get_block_by_hash b d p =
      let (d', done, v) = save_block_total db law f readable c b d p in
      (d', v.hash, done, v.hash_eq, found_by_hash b d d' p v)
