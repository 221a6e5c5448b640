-- ===== src/Crypto/Defs.antt =====
-- src/crypto/hash.ts and src/crypto/keypair.ts.
use bery_bc.Base.{
  ℕ, ◌-◌, ◌≡◌, ◌≢◌, Bool, true, Option, none, some, List, [], ◌∷◌, ◌++◌, length, take, drop, ◌==◌,
  get_elem?, if◌then◌else◌,
}
use bery_bc.Base.Throws.{◌>>=◌, ◌>>◌, throw_unless}
use bery_bc.Bytes.{Bytes, Text, to_hex, from_hex}
use bery_bc.Bytes.HexLaws.{IsBytes}

-- The functions of the three libraries; `none` where they throw.
pub record Crypto : Type 0 where
  pub generichash : Bytes → Bytes
  pub keccak_256 : Bytes → Bytes
  pub hash_sha256 : Bytes → Bytes
  pub private_key_verify : Bytes → Bool
  pub public_key_create : Bytes → Option Bytes
  pub ecdsa_sign : Bytes → Bytes → Option (Bytes × ℕ)
  pub ecdsa_verify : Bytes → Bytes → Bytes → Option Bool
  pub ecdsa_recover : Bytes → ℕ → Bytes → Option Bytes

-- The documented behaviour that the node relies on.
pub record IsSound (c : Crypto) : Type 0 where
  pub hash_length : (m : Bytes) → length (c.generichash m) ≡ 32
  pub keccak_length : (m : Bytes) → length (c.keccak_256 m) ≡ 32
  pub keccak_bytes : (m : Bytes) → IsBytes (c.keccak_256 m)
  -- A public key of another length than 33 or 65 bytes is refused by an exception.
  pub verify_key_length :
      (sig h pk : Bytes) → length pk ≢ 33 → length pk ≢ 65 → c.ecdsa_verify sig h pk ≡ none
  pub sign_length :
      (h sk sig : Bytes) (recid : ℕ) → c.ecdsa_sign h sk ≡ some (sig, recid) → length sig ≡ 64
  pub recover-sign :
      (h sk pk sig : Bytes) (recid : ℕ)
      → c.public_key_create sk ≡ some pk
      → c.ecdsa_sign h sk ≡ some (sig, recid)
      → c.ecdsa_recover sig recid h ≡ some pk
  pub verify-sign :
      (h sk pk sig : Bytes) (recid : ℕ)
      → c.public_key_create sk ≡ some pk
      → c.ecdsa_sign h sk ≡ some (sig, recid)
      → c.ecdsa_verify sig h pk ≡ some true

pub record KeyPair : Type 0 where
  pub private_key : Bytes
  pub public_key : Bytes

module _ (c : Crypto) where
  -- `new KeyPair(privateKey)`
  unfoldable pub new_key_pair : Bytes → Option KeyPair
  new_key_pair sk = do
    throw_unless (c.private_key_verify sk)
    pk ← c.public_key_create sk
    some (record { private_key = sk; public_key = pk })

  -- The `do ... while` of `new KeyPair()` over the drawn random bytes; `none` if no draw is valid.
  unfoldable pub draw_key : List Bytes → Option Bytes
  draw_key [] = none
  draw_key (sk ∷ draws) = if c.private_key_verify sk then some sk else draw_key draws

  unfoldable pub generate_key_pair : List Bytes → Option KeyPair
  unfolding draw_key
  generate_key_pair draws = do
    sk ← draw_key draws
    pk ← c.public_key_create sk
    some (record { private_key = sk; public_key = pk })

  unfoldable pub sign : KeyPair → Bytes → Option Bytes
  sign k message = do
    (signature, recid) ← c.ecdsa_sign (c.generichash message) k.private_key
    some (signature ++ recid ∷ [])

  unfoldable pub verify : Bytes → Bytes → Bytes → Option Bool
  verify signature message public_key =
      let sig = if length signature == 65 then take 64 signature else signature in
      c.ecdsa_verify sig (c.generichash message) public_key

  unfoldable pub recover : Bytes → Bytes → Option Bytes
  recover signature message = do
    throw_unless (length signature == 65)
    recid ← get_elem? signature 64
    c.ecdsa_recover (take 64 signature) recid (c.generichash message)

  unfoldable pub address_from_public_key : Bytes → Text
  address_from_public_key public_key =
      let hash = c.keccak_256 public_key in to_hex (drop (length hash - 20) hash)

  unfoldable pub get_address : KeyPair → Text
  unfolding address_from_public_key
  get_address k = address_from_public_key k.public_key

  unfoldable pub from_private_key : Text → Option KeyPair
  unfolding new_key_pair
  from_private_key hex = new_key_pair (from_hex hex)
