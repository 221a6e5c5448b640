-- ===== src/Core/Block/Verify.antt =====
-- What `verify` accepts, and that it accepts no header that `sign` has signed.
use mathlib.Core.Bool.{false≢true}
use bery_bc.Base.{
  ap, ℕ, zero, suc, ◌+◌, ◌-◌, ◌<◌, ◌≡◌, ◌∙◌, Bool, true, false, Option, none, some, List, [], ◌∷◌,
  inl, inr, length, length-drop, drop, arith, same, same_iff, Bool-cases, not, ◌&&◌, ◌==◌,
  if◌then◌else◌,
}
use bery_bc.Base.Throws.{◌>>=◌, >>=-eq-some, some-inj, none-ne-some}
use bery_bc.Bytes.{Bytes, from_hex}
use bery_bc.Bytes.HexLaws.{IsBytes, from_hex-to_hex}
use bery_bc.Crypto.{Crypto, IsSound, KeyPair}
use bery_bc.Crypto
use bery_bc.Core.Merkle.{compute_root}
use bery_bc.Core.Transaction.{Transaction, system_sender}
use bery_bc.Core.Transaction
use bery_bc.Core.Block.Defs.{
  BlockHeader, Block, get_bytes, sign, verify_header, verify_transactions, hashes, verify,
}

drop-IsBytes : (n : ℕ) (b : Bytes) → IsBytes b → IsBytes (drop n b)
drop-IsBytes zero b h = h
drop-IsBytes (suc n) [] h = tt
drop-IsBytes (suc n) (x ∷ b) h = drop-IsBytes n b h.1

module _ (c : Crypto) (s : IsSound c) where
  -- An address is twenty bytes in hexadecimal.
  length-from_hex-address :
      (pk : Bytes) → length (from_hex (Crypto.address_from_public_key c pk)) ≡ 20
  unfolding Crypto.address_from_public_key
  length-from_hex-address pk =
      let h = c.keccak_256 pk in
      rw
        (from_hex-to_hex (drop (length h - 20) h)
          (drop-IsBytes (length h - 20) h (s.keccak_bytes pk)))
        (omega (arith, length-drop (length h - 20) h, s.keccak_length pk))

  verify_with_address :
      (k : KeyPair) (signature message : Bytes)
      → Crypto.verify c signature message (from_hex (Crypto.get_address c k)) ≡ none
  unfolding Crypto.verify Crypto.get_address
  verify_with_address k signature message =
      let n = length-from_hex-address k.public_key in
      s.verify_key_length _ _ _ (omega (arith, n)) (omega (arith, n))

  sign_parts :
      (k : KeyPair) (h u : BlockHeader)
      → sign c k h ≡ some u
      → (message signature : Bytes) × (get_bytes h ≡ some message)
        × (Crypto.get_address c k ≡ h.validator)
        × (record h { signature = some signature } ≡ u)
  unfolding sign
  sign_parts k h u e = elim (Bool-cases (same (Crypto.get_address c k) h.validator)) [
    | inl own ↦
        let (message, read, e1) =
          >>=-eq-some (get_bytes h)
            (λ m. Crypto.sign c k m >>= λ g. some (record h { signature = some g }))
            (rw own at e) in
        let (signature, made, e2) =
          >>=-eq-some (Crypto.sign c k message) (λ g. some (record h { signature = some g })) e1 in
        (message, signature, read, (same_iff _ h.validator).0 own, some-inj e2)
    | inr other ↦ absurd (none-ne-some {a = u} (rw other at e))
  ]

  verify_header_address :
      (k : KeyPair) (h : BlockHeader) (message signature : Bytes)
      → get_bytes h ≡ some message
      → Crypto.get_address c k ≡ h.validator
      → verify_header c (record h { signature = some signature }) ≡ some false
  unfolding verify_header get_bytes Crypto.verify
  verify_header_address k h message signature read own =
      rw (read, ← own, verify_with_address k signature message)

  -- A header that `sign` has signed is refused by `verify`, whatever the key: the validator field is
  -- the signer's address, of twenty bytes, and `verify` takes it for the public key.
  pub signed_header_refused :
      (k : KeyPair) (h u : BlockHeader) → sign c k h ≡ some u → verify_header c u ≡ some false
  signed_header_refused k h u e =
      let (message, signature, read, own, built) = sign_parts k h u e in
      rw (← built) (verify_header_address k h message signature read own)

  -- So no block with such a header verifies.
  pub signed_block_refused :
      (k : KeyPair) (h u : BlockHeader) (ts : List Transaction)
      → sign c k h ≡ some u
      → verify c (record { header = u; transactions = ts }) ≡ some false
  unfolding verify
  signed_block_refused k h u ts e = rw (signed_header_refused k h u e)

-- Every transaction verifies, and none is from the system but one at index 0.
abbrev pub AllValid : Crypto → ℕ → List Transaction → Type 0
AllValid c i [] = Unit {0}
AllValid c i (t ∷ ts) =
    (Transaction.verify c t ≡ true)
    × (0 < i → same t.from system_sender ≡ false)
    × AllValid c (i + 1) ts

module _ (c : Crypto) where
  abbrev with_root : Block → Bytes → Option Bool
  with_root b root =
      if not (same root b.header.transactions_root)
      then some false
      else some (verify_transactions c 0 b.transactions)

  verify_transactions-AllValid :
      (i : ℕ) (ts : List Transaction) → verify_transactions c i ts ≡ true → AllValid c i ts
  unfolding verify_transactions
  verify_transactions-AllValid i [] e = tt
  verify_transactions-AllValid i (t ∷ ts) e = elim (Bool-cases (Transaction.verify c t)) [
    | inl good ↦ elim (Bool-cases (same t.from system_sender && not (i == 0))) [
      | inl late ↦ absurd (false≢true (rw (good, late) at e))
      | inr early ↦ (
        good,
        λ pos. ground arith,
        verify_transactions-AllValid (i + 1) ts (rw (good, early) at e),
      )
    ]
    | inr bad ↦ absurd (false≢true (rw bad at e))
  ]

  -- A block that verifies has a verified header, the Merkle root of its transactions, only verified
  -- transactions, and none from the system sender but the first.
  pub verify-true :
      (b : Block)
      → verify c b ≡ some true
      → (verify_header c b.header ≡ some true)
        × ((leaves : List Bytes) × (hashes c b.transactions ≡ some leaves)
            × (compute_root c leaves ≡ some b.header.transactions_root))
        × AllValid c 0 b.transactions
  unfolding verify
  verify-true b e =
      let (ok, checked, e1) = >>=-eq-some (verify_header c b.header) _ e in
      elim (Bool-cases ok) [
        | inl good ↦
            let (leaves, hashed, e2) =
              >>=-eq-some (hashes c b.transactions) (λ l. compute_root c l >>= (with_root b))
                (rw good at e1) in
            let (root, rooted, e3) = >>=-eq-some (compute_root c leaves) (with_root b) e2 in
            elim (Bool-cases (same root b.header.transactions_root)) [
              | inl equal ↦ (
                checked ∙ rw good,
                (
                  leaves,
                  hashed,
                  rooted ∙ ap some ((same_iff root b.header.transactions_root).0 equal),
                ),
                verify_transactions-AllValid 0 b.transactions (some-inj (rw equal at e3)),
              )
              | inr other ↦ absurd (false≢true (some-inj (rw other at e3)))
            ]
        | inr bad ↦ absurd (false≢true (some-inj (rw bad at e1)))
      ]
