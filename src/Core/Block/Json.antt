-- ===== src/Core/Block/Json.antt =====
-- The JSON form of headers and blocks.
use bery_bc.Base.{ℕ, ◌≡◌, Option, none, some, List, [], ◌∷◌}
use bery_bc.Base.Throws.{◌>>=◌, >>=-eq-some, some-inj}
use bery_bc.Bytes.{Bytes, Text, to_hex, from_hex}
use bery_bc.Bytes.HexLaws.{IsBytes, from_hex-to_hex}
use bery_bc.Crypto.{Crypto}
use bery_bc.Core.Transaction.{Transaction}
use bery_bc.Core.Transaction.Json.{
  TransactionJson, IsPlain, IsPresentable, hex_of, bytes_of, bytes_of-hex_of,
}
use bery_bc.Core.Transaction.Json
use bery_bc.Core.Block.Defs.{BlockHeader, Block, header_hash}

pub record HeaderJson : Type 0 where
  pub version : ℕ
  pub height : ℕ
  pub round : Option ℕ
  pub timestamp : ℕ
  pub parent_hash : Text
  pub state_root : Text
  pub transactions_root : Text
  pub validator : Text
  pub signature : Option Text
  pub hash : Text

pub record BlockJson : Type 0 where
  pub header : HeaderJson
  pub transactions : List TransactionJson

abbrev pub written : BlockHeader → Bytes → HeaderJson
written h hash = record {
  version = h.version;
  height = h.height;
  round = some h.round;
  timestamp = h.timestamp;
  parent_hash = to_hex h.parent_hash;
  state_root = to_hex h.state_root;
  transactions_root = to_hex h.transactions_root;
  validator = h.validator;
  signature = hex_of h.signature;
  hash = to_hex hash;
}

-- `data.round || 0`
abbrev pub round_of : Option ℕ → ℕ
round_of none = 0
round_of (some r) = r

unfoldable pub header_from_json : HeaderJson → BlockHeader
header_from_json j = record {
  version = j.version;
  height = j.height;
  round = round_of j.round;
  timestamp = j.timestamp;
  parent_hash = from_hex j.parent_hash;
  state_root = from_hex j.state_root;
  transactions_root = from_hex j.transactions_root;
  validator = j.validator;
  signature = bytes_of j.signature;
}

unfoldable pub transactions_from_json : List TransactionJson → Option (List Transaction)
transactions_from_json [] = some []
transactions_from_json (j ∷ js) = do
  t ← Json.from_json j
  ts ← transactions_from_json js
  some (t ∷ ts)

unfoldable pub from_json : BlockJson → Option Block
unfolding header_from_json transactions_from_json
from_json j = do
  transactions ← transactions_from_json j.transactions
  some (record { header = header_from_json j.header; transactions = transactions })

module _ (c : Crypto) where
  unfoldable pub header_to_json : BlockHeader → Option HeaderJson
  header_to_json h = do hash ← header_hash c h; some (written h hash)

  unfoldable pub transactions_to_json : List Transaction → Option (List TransactionJson)
  transactions_to_json [] = some []
  transactions_to_json (t ∷ ts) = do
    j ← Json.to_json c t
    js ← transactions_to_json ts
    some (j ∷ js)

  unfoldable pub to_json : Block → Option BlockJson
  unfolding header_to_json transactions_to_json
  to_json b = do
    header ← header_to_json b.header
    transactions ← transactions_to_json b.transactions
    some (record { header = header; transactions = transactions })

-- Hashes of bytes, and a signature that is absent or not empty.
pub record IsPlainHeader (h : BlockHeader) : Type 0 where
  pub parent_bytes : IsBytes h.parent_hash
  pub state_bytes : IsBytes h.state_root
  pub root_bytes : IsBytes h.transactions_root
  pub signature_bytes : IsPresentable h.signature

abbrev pub AllPlain : List Transaction → Type 0
AllPlain [] = Unit {0}
AllPlain (t ∷ ts) = IsPlain t × AllPlain ts

module _ (c : Crypto) where
  header_read :
      (h : BlockHeader) (j : HeaderJson)
      → IsPlainHeader h
      → header_to_json c h ≡ some j
      → header_from_json j ≡ h
  unfolding header_to_json header_from_json
  header_read h j p e =
      let (hash, _, made) = >>=-eq-some (header_hash c h) (λ x. some (written h x)) e in
      rw (← some-inj made) λ i. record {
        version = h.version;
        height = h.height;
        round = h.round;
        timestamp = h.timestamp;
        parent_hash = from_hex-to_hex h.parent_hash p.parent_bytes i;
        state_root = from_hex-to_hex h.state_root p.state_bytes i;
        transactions_root = from_hex-to_hex h.transactions_root p.root_bytes i;
        validator = h.validator;
        signature = bytes_of-hex_of h.signature p.signature_bytes i;
      }

  transactions_read :
      (ts : List Transaction) (js : List TransactionJson)
      → AllPlain ts
      → transactions_to_json c ts ≡ some js
      → transactions_from_json js ≡ some ts
  unfolding transactions_to_json transactions_from_json
  transactions_read [] js p e = rw (← some-inj e)
  transactions_read (t ∷ ts) js p e =
      let (j, one, e1) =
        >>=-eq-some (Json.to_json c t) (λ j. transactions_to_json c ts >>= λ js. some (j ∷ js)) e in
      let (rest, more, e2) = >>=-eq-some (transactions_to_json c ts) (λ js. some (j ∷ js)) e1 in
      rw (← some-inj e2, Json.from_json-to_json c t j p.0 one, transactions_read ts rest p.1 more)

  -- A block that a node sends is read back by every node: the same header and transactions.
  pub from_json-to_json_block :
      (b : Block) (j : BlockJson)
      → IsPlainHeader b.header
      → AllPlain b.transactions
      → to_json c b ≡ some j
      → from_json j ≡ some b
  unfolding to_json from_json
  from_json-to_json_block b j ph pt e =
      let (h, head, e1) =
        >>=-eq-some (header_to_json c b.header)
          (λ h. transactions_to_json c b.transactions >>= λ ts.
            some (record { header = h; transactions = ts }))
          e in
      let (ts, body, e2) =
        >>=-eq-some (transactions_to_json c b.transactions)
          (λ ts. some (record { header = h; transactions = ts })) e1 in
      rw
        (← some-inj e2, transactions_read b.transactions ts pt body, header_read b.header h ph head)
