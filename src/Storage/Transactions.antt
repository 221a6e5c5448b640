-- ===== src/Storage/Transactions.antt =====
-- A transaction of a stored block is found under its hash.
use bery_bc.Base.{◌≡◌, refl, sym, ◌∙◌, ap, some, List, ◌∷◌, ◌++◌}
use bery_bc.Bytes.{Bytes, to_hex}
use bery_bc.Crypto.{Crypto}
use bery_bc.Core.Transaction.{Transaction}
use bery_bc.Core.Transaction
use bery_bc.Core.Block.{Block, header_hash}
use bery_bc.Storage.Database.{Database, IsDatabase, Forms, IsReadable}
use bery_bc.Storage.Keys.{decimal, tx_key, head_key, tx_key-head_key}
use bery_bc.Storage.Blocks.{
  index_transactions, save_head, save_block, get_transaction_location, get_transaction,
}
use bery_bc.Storage.Chain.{get-put_ne}
use bery_bc.Storage.Refinement.{IsSavable, Saved, save_block_total, prepared}
use bery_bc.Storage.Lookups.{parse_int-decimal, stored_block, location_indexed, find_hash-eq}

module _ (db : Database) (law : IsDatabase db) (f : Forms) (readable : IsReadable f)
    (c : Crypto) where
  open db use {Db, get, put}

  module _ (b : Block) (d d' : Db) (p : IsSavable c b) (v : Saved db law f readable c b d d')
      (before : List Transaction) (t : Transaction) (after : List Transaction) (h : Bytes)
      (listed : b.transactions ≡ before ++ t ∷ after) (hashed : Transaction.hash c t ≡ some h) where
    indexed-eq :
        index_transactions db f c
          (before ++ t ∷ after)
          b.header.height
          (prepared db law f readable c b (to_hex v.hash) v.json d)
        ≡ some v.indexed
    indexed-eq =
        ap
          (λ ts.
            index_transactions db f c ts b.header.height
              (prepared db law f readable c b (to_hex v.hash) v.json d))
          (sym listed)
        ∙ v.indexed_eq

    location-eq : get_transaction_location db f c d' (to_hex h) ≡ some b.header.height
    unfolding get_transaction_location save_head
    location-eq =
        let there : get d' (tx_key (to_hex h)) ≡ some (decimal b.header.height) =
          ap (λ x. get x (tx_key (to_hex h))) (sym v.result_eq)
          ∙ get-put_ne db law f c (tx_key (to_hex h)) head_key _ v.indexed
              (tx_key-head_key (to_hex h))
          ∙ location_indexed db law f readable c before t after h b.header.height _ v.indexed hashed
              indexed-eq in
        rw (there) (parse_int-decimal b.header.height)

    get_transaction-eq :
        (u : Transaction) × (g : Bytes) × (get_transaction db f c d' (to_hex h)
          ≡ some (
              some (record { tx = u; block_height = b.header.height; block_hash = to_hex v.hash })))
        × (Transaction.hash c u ≡ some g)
        × (to_hex g ≡ to_hex h)
    unfolding get_transaction
    get_transaction-eq =
        let (u, g, found, of_u, equal) =
          find_hash-eq db law f readable c before t after h b.header.height _ v.indexed hashed
            indexed-eq in
        (
          u,
          g,
          rw (location-eq, get_transaction)
              (rw (stored_block db law f readable c b d d' p v)
                (rw (listed) (rw (found) (rw (v.hash_eq) refl)))),
          of_u,
          equal,
        )

  -- Every transaction of a savable block is found under its hash once the block is saved: the store
  -- answers with the block's height and hash, and a transaction of the same hash.
  pub save-get_transaction :
      (b : Block) (d : Db) (before : List Transaction) (t : Transaction) (after : List Transaction)
      (h : Bytes)
      → IsSavable c b
      → b.transactions ≡ before ++ t ∷ after
      → Transaction.hash c t ≡ some h
      → (d' : Db) × (u : Transaction) × (g hash : Bytes) × (save_block db f c b d ≡ some d')
        × (header_hash c b.header ≡ some hash)
        × (get_transaction db f c d' (to_hex h)
            ≡ some (
                some (record { tx = u; block_height = b.header.height; block_hash = to_hex hash })))
        × (Transaction.hash c u ≡ some g)
        × (to_hex g ≡ to_hex h)
  save-get_transaction b d before t after h p listed hashed =
      let (d', done, v) = save_block_total db law f readable c b d p in
      let (u, g, found, of_u, equal) =
        get_transaction-eq b d d' p v before t after h listed hashed in
      (d', u, g, v.hash, done, v.hash_eq, found, of_u, equal)
