-- ===== src/Core/Transaction/Json.antt =====
-- The JSON form of a transaction, in which it travels between nodes and into the block store.
use bery_bc.Base.{ℕ, ◌≡◌, ◌≢◌, refl, ap, Option, none, some, [], ◌∷◌, arith}
use bery_bc.Base.Int.{ℤ}
use bery_bc.Base.Throws.{◌>>=◌, >>=-eq-some, some-inj}
use bery_bc.Bytes.{Bytes, Text, to_hex, from_hex, to_string}
use bery_bc.Bytes.HexLaws.{IsBytes, from_hex-to_hex}
use bery_bc.Bytes.Decimal.{of_decimal, of_decimal-to_string, to_string-cons}
use bery_bc.Crypto.{Crypto}
use bery_bc.Core.Transaction.Defs.{Transaction, new_transaction, hash, or_else, or_default}

pub record TransactionJson : Type 0 where
  pub from : Text
  pub to : Text
  pub value : Text
  pub nonce : ℕ
  pub gas_limit : ℕ
  pub gas_price : Option Text
  pub payload : Option Text
  pub signature : Option Text
  pub hash : Text
  pub eth_hash : Option Text

-- `o?.toString('hex')`
abbrev pub hex_of : Option Bytes → Option Text
hex_of none = none
hex_of (some b) = some (to_hex b)

-- `o ? Buffer.from(o, 'hex') : undefined`, where the empty text counts as absent.
abbrev pub bytes_of : Option Text → Option Bytes
bytes_of none = none
bytes_of (some []) = none
bytes_of (some (c ∷ cs)) = some (from_hex (c ∷ cs))

-- `o ? new BN(o) : undefined`
abbrev pub number_of : Option Text → Option (Option ℤ)
number_of none = some none
number_of (some []) = some none
number_of (some (c ∷ cs)) = of_decimal (c ∷ cs) >>= λ n. some (some n)

-- The fields of the JSON object, with the hash.
abbrev pub written : Transaction → Bytes → TransactionJson
written t h = record {
  from = t.from;
  to = t.to;
  value = to_string 10 t.value;
  nonce = t.nonce;
  gas_limit = t.gas_limit;
  gas_price = some (to_string 10 t.gas_price);
  payload = some (to_hex t.payload);
  signature = hex_of t.signature;
  hash = to_hex h;
  eth_hash = hex_of t.eth_hash;
}

unfoldable pub to_json : Crypto → Transaction → Option TransactionJson
to_json c t = do h ← hash c t; some (written t h)

unfoldable pub from_json : TransactionJson → Option Transaction
unfolding new_transaction
from_json j = do
  value ← of_decimal j.value
  gas_price ← number_of j.gas_price
  some (
      new_transaction (record {
        from = j.from;
        to = j.to;
        value = value;
        nonce = j.nonce;
        gas_limit = some j.gas_limit;
        gas_price = gas_price;
        payload = bytes_of j.payload;
        signature = bytes_of j.signature;
        eth_hash = bytes_of j.eth_hash;
      }))

-- An optional buffer that is not empty and holds bytes.
abbrev pub IsPresentable : Option Bytes → Type 0
IsPresentable none = Unit {0}
IsPresentable (some []) = ⊥
IsPresentable (some (b ∷ bs)) = IsBytes (b ∷ bs)

pub record IsPlain (t : Transaction) : Type 0 where
  pub gas_set : t.gas_limit ≢ 0
  pub payload_bytes : IsBytes t.payload
  pub signature_bytes : IsPresentable t.signature
  pub eth_hash_bytes : IsPresentable t.eth_hash

pub bytes_of-hex_of : (o : Option Bytes) → IsPresentable o → bytes_of (hex_of o) ≡ o
unfolding to_hex
bytes_of-hex_of none h = refl
bytes_of-hex_of (some []) h = absurd h
bytes_of-hex_of (some (b ∷ bs)) h = ap some (from_hex-to_hex (b ∷ bs) h)

payload_read : (b : Bytes) → IsBytes b → or_else (bytes_of (some (to_hex b))) [] ≡ b
unfolding to_hex
payload_read [] h = refl
payload_read (b ∷ bs) h = from_hex-to_hex (b ∷ bs) h

number_read : (a : ℤ) → number_of (some (to_string 10 a)) ≡ some (some a)
number_read a = let (d, ds, e) = to_string-cons a in rw e (rw (← e, of_decimal-to_string a))

gas_read : (n : ℕ) → n ≢ 0 → or_default (some n) 1000000 ≡ n
gas_read n h = ground arith

-- What a node writes of a transaction, every node reads back: the same sender, receiver, value,
-- nonce, gas, data, signature and hash.
pub from_json-to_json :
    (c : Crypto) (t : Transaction) (j : TransactionJson)
    → IsPlain t
    → to_json c t ≡ some j
    → from_json j ≡ some t
unfolding to_json from_json
from_json-to_json c t j p e =
    let (h, _, made) = >>=-eq-some (hash c t) (λ h. some (written t h)) e in
    rw (← some-inj made, of_decimal-to_string t.value, number_read t.gas_price)
      λ i. some (record {
        from = t.from;
        to = t.to;
        value = t.value;
        nonce = t.nonce;
        gas_limit = gas_read t.gas_limit p.gas_set i;
        gas_price = t.gas_price;
        payload = payload_read t.payload p.payload_bytes i;
        signature = bytes_of-hex_of t.signature p.signature_bytes i;
        eth_hash = bytes_of-hex_of t.eth_hash p.eth_hash_bytes i;
      })
