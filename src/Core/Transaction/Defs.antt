-- ===== src/Core/Transaction/Defs.antt =====
-- The class `Transaction` without its JSON form.
use bery_bc.Base.{
  ℕ, Bool, true, false, Option, none, some, [], ◌∷◌, ◌++◌, length, replicate, ◌==◌, same,
  if◌then◌else◌,
}
use bery_bc.Base.Int.{ℤ, pos}
use bery_bc.Base.Throws.{◌>>=◌, ◌>>◌, throw_unless}
use bery_bc.Bytes.{Bytes, Text, from_hex, write_be, to_string, pad_start}
use bery_bc.Crypto.{Crypto, KeyPair}
use bery_bc.Crypto

-- `'0'.repeat(40)`, the sender of block rewards.
abbrev pub system_sender : Text
system_sender = replicate 40 b'0'

-- '0000000000000000000000000000000000000100'
abbrev pub staking_address : Text
staking_address = replicate 37 b'0' ++ (b'1' ∷ b'0' ∷ b'0' ∷ [])

pub record TransactionData : Type 0 where
  pub from : Text
  pub to : Text
  pub value : ℤ
  pub nonce : ℕ
  pub gas_limit : Option ℕ
  pub gas_price : Option ℤ
  pub payload : Option Bytes
  pub signature : Option Bytes
  pub eth_hash : Option Bytes

-- `payload` is the field `data`.
pub record Transaction : Type 0 where
  pub from : Text
  pub to : Text
  pub value : ℤ
  pub nonce : ℕ
  pub gas_limit : ℕ
  pub gas_price : ℤ
  pub payload : Bytes
  pub signature : Option Bytes
  pub eth_hash : Option Bytes

-- `n || d` on an optional number: absent and zero are both replaced.
abbrev pub or_default : Option ℕ → ℕ → ℕ
or_default none d = d
or_default (some n) d = if n == 0 then d else n

-- `a || d` on an optional object.
abbrev pub or_else {ℓ} : {A : Type ℓ} → Option A → A → A
or_else none d = d
or_else (some a) d = a

unfoldable pub new_transaction : TransactionData → Transaction
new_transaction t = record {
  from = t.from;
  to = t.to;
  value = t.value;
  nonce = t.nonce;
  gas_limit = or_default t.gas_limit 1000000;
  gas_price = or_else t.gas_price (pos 1);
  payload = or_else t.payload [];
  signature = t.signature;
  eth_hash = t.eth_hash;
}

-- The bytes that are signed; `none` where a 64-bit write is out of range.
unfoldable pub get_bytes : Transaction → Option Bytes
get_bytes t = do
  nonce ← write_be 8 t.nonce
  gas_limit ← write_be 8 t.gas_limit
  some (
      from_hex t.from
      ++ (from_hex t.to
          ++ (from_hex (pad_start 64 (to_string 16 t.value))
              ++ (nonce
                  ++ (gas_limit
                      ++ (from_hex (pad_start 64 (to_string 16 t.gas_price)) ++ t.payload))))))

abbrev pub with_signature : Bytes → Option Bytes → Bytes
with_signature base none = base
with_signature base (some signature) = base ++ signature

module _ (c : Crypto) where
  unfoldable pub hash : Transaction → Option Bytes
  unfolding get_bytes
  hash t = elim t.eth_hash [
    | some h ↦ some h
    | none ↦ do base ← get_bytes t; some (c.generichash (with_signature base t.signature))
  ]

  unfoldable pub sign : KeyPair → Transaction → Option Transaction
  sign k t = do
    throw_unless (same (Crypto.get_address c k) t.from)
    message ← get_bytes t
    signature ← Crypto.sign c k message
    some (record t { signature = some signature })

  -- The recovery inside `try`: a throw makes the answer false.
  unfoldable pub recovered_is : Text → Bytes → Option Bytes → Bool
  recovered_is from signature none = false
  recovered_is from signature (some message) = elim (Crypto.recover c signature message) [
    | none ↦ false
    | some public_key ↦ same (Crypto.address_from_public_key c public_key) from
  ]

  unfoldable pub verify : Transaction → Bool
  unfolding recovered_is
  verify t = if same t.from system_sender then true else elim t.signature [
    | none ↦ false
    | some signature ↦
        if length signature == 65 then recovered_is t.from signature (get_bytes t) else false
  ]
