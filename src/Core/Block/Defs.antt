-- ===== src/Core/Block/Defs.antt =====
-- The classes `BlockHeader` and `Block` without their JSON form.
use bery_bc.Base.{
  ℕ, ◌+◌, Bool, true, false, Option, none, some, List, [], ◌∷◌, ◌++◌, ◌==◌, same, not, ◌&&◌,
  if◌then◌else◌,
}
use bery_bc.Base.Throws.{◌>>=◌, ◌>>◌, throw_unless}
use bery_bc.Bytes.{Bytes, Text, from_hex, write_be}
use bery_bc.Crypto.{Crypto, KeyPair}
use bery_bc.Crypto
use bery_bc.Core.Merkle.{compute_root}
use bery_bc.Core.Transaction.{Transaction, system_sender, with_signature}
use bery_bc.Core.Transaction

pub record BlockHeader : Type 0 where
  pub version : ℕ
  pub height : ℕ
  pub round : ℕ
  pub timestamp : ℕ
  pub parent_hash : Bytes
  pub state_root : Bytes
  pub transactions_root : Bytes
  pub validator : Text
  pub signature : Option Bytes

pub record Block : Type 0 where
  pub header : BlockHeader
  pub transactions : List Transaction

-- `none` where a write is out of range.
unfoldable pub get_bytes : BlockHeader → Option Bytes
get_bytes h = do
  version ← write_be 4 h.version
  height ← write_be 8 h.height
  round ← write_be 4 h.round
  timestamp ← write_be 8 h.timestamp
  some (
      version
      ++ (height
          ++ (round
              ++ (timestamp
                  ++ (h.parent_hash
                      ++ (h.state_root ++ (h.transactions_root ++ from_hex h.validator)))))))

module _ (c : Crypto) where
  unfoldable pub header_hash : BlockHeader → Option Bytes
  unfolding get_bytes
  header_hash h = do bytes ← get_bytes h; some (c.generichash (with_signature bytes h.signature))

  unfoldable pub sign : KeyPair → BlockHeader → Option BlockHeader
  sign k h = do
    throw_unless (same (Crypto.get_address c k) h.validator)
    message ← get_bytes h
    signature ← Crypto.sign c k message
    some (record h { signature = some signature })

  -- A throw of `KeyPair.verify` is caught; one of `getBytes` is not.
  unfoldable pub verify_header : BlockHeader → Option Bool
  verify_header h = elim h.signature [
    | none ↦ some false
    | some signature ↦ do
      message ← get_bytes h
      elim (Crypto.verify c signature message (from_hex h.validator)) [
        | none ↦ some false
        | some answer ↦ some answer
      ]
  ]

  -- `transactions.map(tx => tx.hash)`
  unfoldable pub hashes : List Transaction → Option (List Bytes)
  hashes [] = some []
  hashes (t ∷ ts) = do h ← Transaction.hash c t; hs ← hashes ts; some (h ∷ hs)

  -- `Block.create`; the time is an argument.
  unfoldable pub create : Bytes → Bytes → Text → List Transaction → ℕ → ℕ → ℕ → Option Block
  create parent_hash state_root validator transactions height round timestamp = do
    leaves ← hashes transactions
    transactions_root ← compute_root c leaves
    some (record {
      header = record {
        version = 1;
        height = height;
        round = round;
        timestamp = timestamp;
        parent_hash = parent_hash;
        state_root = state_root;
        transactions_root = transactions_root;
        validator = validator;
        signature = none;
      };
      transactions = transactions;
    })

  -- The loop of `verify`: signatures, and the rule on `SYSTEM_SENDER`.
  unfoldable pub verify_transactions : ℕ → List Transaction → Bool
  verify_transactions i [] = true
  verify_transactions i (t ∷ ts) =
      if not (Transaction.verify c t)
      then false
      else if same t.from system_sender && not (i == 0)
      then false
      else verify_transactions (i + 1) ts

  unfoldable pub verify : Block → Option Bool
  unfolding verify_header hashes
  verify b = do
    header_ok ← verify_header b.header
    if not header_ok then some false else do
      leaves ← hashes b.transactions
      root ← compute_root c leaves
      if not (same root b.header.transactions_root)
          then some false
          else some (verify_transactions 0 b.transactions)
