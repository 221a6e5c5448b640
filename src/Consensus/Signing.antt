-- ===== src/Consensus/Signing.antt =====
-- Votes on the wire: `getVoteBytes`, `signVote` and `verifyVote`.
use bery_bc.Base.{ℕ, Bool, false, Option, none, some, [], ◌∷◌, ◌++◌, replicate, same}
use bery_bc.Base.Throws.{◌>>=◌}
use bery_bc.Bytes.{Bytes, Text, to_hex, from_hex, write_be}
use bery_bc.Crypto.{Crypto, KeyPair}
use bery_bc.Crypto
use bery_bc.Consensus.Node.{Vote, VoteType, prevote, precommit}

abbrev type_byte : VoteType → ℕ
type_byte prevote = 0
type_byte precommit = 1

abbrev hash_bytes : Option Text → Bytes
hash_bytes none = replicate 32 0
hash_bytes (some []) = replicate 32 0
hash_bytes (some (x ∷ xs)) = from_hex (x ∷ xs)

unfoldable pub get_vote_bytes : Vote → Option Bytes
get_vote_bytes v = do
  height ← write_be 8 v.height
  round ← write_be 4 v.round
  some (height ++ (round ++ (type_byte v.type ∷ hash_bytes v.block_hash)))

module _ (c : Crypto) where
  unfoldable pub sign_vote : KeyPair → Vote → Option Vote
  sign_vote k v = do
    message ← get_vote_bytes v
    signature ← Crypto.sign c k message
    some (record v { signature = to_hex signature })

  abbrev signed_by : Text → Option Bytes → Bool
  signed_by validator none = false
  signed_by validator (some public_key) =
      same (Crypto.address_from_public_key c public_key) validator

  unfoldable pub verify_vote : Vote → Bool
  verify_vote v = elim v.signature [
    | [] ↦ false
    | x ∷ xs ↦ elim v.validator [
      | [] ↦ false
      | y ∷ ys ↦
          signed_by (y ∷ ys)
            (get_vote_bytes v >>= λ message. Crypto.recover c (from_hex (x ∷ xs)) message)
    ]
  ]
