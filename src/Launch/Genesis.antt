-- ===== src/Launch/Genesis.antt =====
-- The genesis of `main`: the validators' accounts of an empty state are funded.
use bery_bc.Base.{
  ℕ, ◌*◌, ◌/◌, ◌^◌, Option, none, some, List, [], ◌∷◌, length, map, ◌==◌, ◌&&◌, ◌||◌, if◌then◌else◌,
}
use bery_bc.Base.Int.{pos, eqb_ℤ}
use bery_bc.Base.Throws.{◌>>=◌}
use bery_bc.Bytes.{Text, from_hex}
use bery_bc.Consensus.Node.{Validator}
use bery_bc.Crypto.{Crypto, KeyPair, address_from_public_key, get_address}
use bery_bc.State.Account.{Account, empty_account}
use bery_bc.State.Manager.{Trie, get_account, put_account}

module _ (c : Crypto) where
  -- The validators of the configuration, or the node alone.
  unfoldable pub choose_validators : List Text → KeyPair → List Validator
  choose_validators [] k = (record { public_key = get_address c k; power = 10 }) ∷ []
  choose_validators (a ∷ l) k = map (λ addr. record { public_key = addr; power = 10 }) (a ∷ l)

  -- A validator is known by its address, or by its public key in one of two lengths.
  unfoldable pub address_of : Validator → Text
  address_of v =
      if (length v.public_key == 66) || (length v.public_key == 130)
      then address_from_public_key c (from_hex v.public_key)
      else v.public_key

-- A validator's part of the supply, 18 decimals; `n` is not zero where it is called.
abbrev pub part_of : ℕ → ℕ → ℕ
part_of total n = total / n * 10 ^ 18

abbrev pub funded : ℕ → Account
funded wei = record empty_account { balance = pos wei }

module _ (tr : Trie) (c : Crypto) where
  -- The loop over the validators.
  unfoldable pub fund : Account → List Validator → tr.Db → Option tr.Db
  unfolding address_of
  fund a [] d = some d
  fund a (v ∷ vs) d = do d1 ← put_account tr (address_of c v) a d; fund a vs d1

  -- The genesis, if the first validator has neither balance nor nonce.
  unfoldable pub seed_genesis : ℕ → List Validator → tr.Db → Option tr.Db
  unfolding fund
  seed_genesis total [] d = none
  seed_genesis total (v ∷ vs) d =
      let a = get_account tr d (address_of c v) in
      if eqb_ℤ a.balance (pos 0) && eqb_ℤ a.nonce (pos 0)
      then (fund (funded (part_of total (length (v ∷ vs)))) (v ∷ vs) d >>= λ d1.
          tr.commit (tr.checkpoint d1))
      else some d
