-- ===== src/Storage/Blocks.antt =====
-- `saveBlock`, `getBlock` and the look-ups by the hash of a block or a transaction.
use bery_bc.Base.{
  ℕ, ◌+◌, ◌*◌, Option, none, some, List, [], ◌∷◌, length, same, ◌==◌, ◌&&◌, if◌then◌else◌,
}
use bery_bc.Base.Throws.{◌>>=◌}
use bery_bc.Bytes.{Text, to_hex}
use bery_bc.Bytes.Decimal.{digit_value}
use bery_bc.Crypto.{Crypto}
use bery_bc.Core.Transaction.{Transaction}
use bery_bc.Core.Transaction
use bery_bc.Core.Block.{Block, header_hash}
use bery_bc.Core.Block.Json.{to_json, from_json}
use bery_bc.Storage.Database.{Database, Forms, Head}
use bery_bc.Storage.Keys.{decimal, block_key, hash_key, tx_key, address_key, head_key, slashed_key}
use bery_bc.Vm.Staking.{JsonLists}

-- `text.replace(/^0x/, '')`
unfoldable pub strip_0x : Text → Text
strip_0x [] = []
strip_0x (x ∷ []) = x ∷ []
strip_0x (x ∷ y ∷ cs) = if (x == b'0') && (y == b'x') then cs else x ∷ y ∷ cs

-- `parseInt` of a text that the store has written: its leading digits, `none` for NaN.
unfoldable pub parse_digits : ℕ → Text → ℕ
parse_digits acc [] = acc
parse_digits acc (c ∷ cs) = elim (digit_value c) [
  | none ↦ acc
  | some d ↦ parse_digits (acc * 10 + d) cs
]

unfoldable pub parse_int : Text → Option ℕ
unfolding parse_digits
parse_int [] = none
parse_int (c ∷ cs) = elim (digit_value c) [ none ↦ none | some d ↦ some (parse_digits 0 (c ∷ cs)) ]

-- What `getTransaction` returns.
pub record Located : Type 0 where
  pub tx : Transaction
  pub block_height : ℕ
  pub block_hash : Text

module _ (db : Database) (f : Forms) (c : Crypto) where
  open db use {Db, get, put}

  -- The index of an address that has forty characters.
  unfoldable pub index_address : Text → Text → ℕ → Db → Db
  index_address address hash height d =
      if length (strip_0x address) == 40
      then put (address_key (strip_0x address) hash) (decimal height) d
      else d

  -- The loop over the transactions; `none` where a hash throws.
  unfoldable pub index_transactions : List Transaction → ℕ → Db → Option Db
  unfolding index_address
  index_transactions [] height d = some d
  index_transactions (t ∷ ts) height d = do
    hash ← Transaction.hash c t
    index_transactions ts height (
        index_address t.to (to_hex hash) height (
          index_address t.from (to_hex hash) height
            (put (tx_key (to_hex hash)) (decimal height) d)))

  unfoldable pub save_head : ℕ → Text → Db → Db
  save_head height hash d = put head_key (f.head_text (record { height = height; hash = hash })) d

  -- A throw comes before the first put: the JSON form has all the hashes.
  unfoldable pub save_block : Block → Db → Option Db
  unfolding index_transactions save_head
  save_block b d = do
    hash ← header_hash c b.header
    json ← to_json c b
    indexed ← index_transactions b.transactions b.header.height (
        put (hash_key (to_hex hash)) (decimal b.header.height)
          (put (block_key b.header.height) (f.block_text json) d))
    some (save_head b.header.height (to_hex hash) indexed)

  -- A text that is no block is logged, and none is returned.
  unfoldable pub get_block : Db → ℕ → Option Block
  get_block d height = do
    data_bytes ← get d (block_key height)
    json ← f.parse_block data_bytes
    from_json json

  -- A NaN is the key of no block.
  unfoldable pub get_block_by_hash : Db → Text → Option Block
  unfolding get_block parse_int
  get_block_by_hash d hash = do
    height_data ← get d (hash_key hash)
    height ← parse_int height_data
    get_block d height

  unfoldable pub get_transaction_location : Db → Text → Option ℕ
  unfolding parse_int
  get_transaction_location d hash = do data_bytes ← get d (tx_key hash); parse_int data_bytes

  -- `transactions.find(t => t.hash.toString('hex') === txHash)`; the outer `none` is a throw.
  unfoldable pub find_hash : Text → List Transaction → Option (Option Transaction)
  find_hash hash [] = some none
  find_hash hash (t ∷ ts) = do
    h ← Transaction.hash c t
    if same (to_hex h) hash then some (some t) else find_hash hash ts

  -- The outer `none` is a throw of a hash.
  unfoldable pub get_transaction : Db → Text → Option (Option Located)
  unfolding get_block get_transaction_location find_hash
  get_transaction d hash = elim (get_transaction_location d hash) [
    | none ↦ some none
    | some height ↦ elim (get_block d height) [
      | none ↦ some none
      | some b ↦ do
        found ← find_hash hash b.transactions
        elim found [
          | none ↦ some none
          | some t ↦ do
            block_hash ← header_hash c b.header
            some (some (record { tx = t; block_height = height; block_hash = to_hex block_hash }))
        ]
    ]
  ]

  -- The outer `none` is the throw of a parse.
  unfoldable pub get_head : Db → Option (Option Head)
  get_head d = elim (get d head_key) [
    | none ↦ some none
    | some data_bytes ↦ (f.parse_head data_bytes >>= λ head. some (some head))
  ]

  unfoldable pub save_slashed_validators : JsonLists → List Text → Db → Db
  save_slashed_validators j validators d = put slashed_key (j.stringify validators) d

  unfoldable pub get_slashed_validators : JsonLists → Db → List Text
  get_slashed_validators j d = elim (get d slashed_key >>= j.parse) [ none ↦ [] | some l ↦ l ]
