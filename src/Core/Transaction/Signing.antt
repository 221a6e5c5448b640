-- ===== src/Core/Transaction/Signing.antt =====
-- A transaction that its sender signs verifies.
use bery_bc.Base.{◌≡◌, refl, true, Option, some, inl, inr, same, same_refl, same_iff, Bool-cases}
use bery_bc.Base.Throws.{◌>>=◌, >>=-eq-some, some-inj, none-ne-some}
use bery_bc.Bytes.{Bytes}
use bery_bc.Crypto.{Crypto, IsSound, KeyPair}
use bery_bc.Crypto
use bery_bc.Crypto.Signatures.{IsKeyPair, recover_signed, length-signed}
use bery_bc.Core.Transaction.Defs.{
  Transaction, get_bytes, sign, verify, recovered_is, system_sender,
}

-- The signature is not signed.
get_bytes-signature :
    (t : Transaction) (g : Option Bytes) → get_bytes (record t { signature = g }) ≡ get_bytes t
unfolding get_bytes
get_bytes-signature t g = refl

module _ (c : Crypto) (s : IsSound c) (k : KeyPair) (kp : IsKeyPair c k) where
  -- What `sign` did, when it did not throw.
  pub sign-eq :
      (t u : Transaction)
      → sign c k t ≡ some u
      → (message signature : Bytes) × (get_bytes t ≡ some message)
        × (Crypto.sign c k message ≡ some signature)
        × (Crypto.get_address c k ≡ t.from)
        × (record t { signature = some signature } ≡ u)
  unfolding sign
  sign-eq t u e = elim (Bool-cases (same (Crypto.get_address c k) t.from)) [
    | inl own ↦
        let (message, read, e1) =
          >>=-eq-some (get_bytes t)
            (λ m. Crypto.sign c k m >>= λ g. some (record t { signature = some g }))
            (rw own at e) in
        let (signature, made, e2) =
          >>=-eq-some (Crypto.sign c k message) (λ g. some (record t { signature = some g })) e1 in
        (message, signature, read, made, (same_iff _ t.from).0 own, some-inj e2)
    | inr other ↦ absurd (none-ne-some {a = u} (rw other at e))
  ]

  verify_signed_fields :
      (t : Transaction) (message signature : Bytes)
      → get_bytes t ≡ some message
      → Crypto.sign c k message ≡ some signature
      → Crypto.get_address c k ≡ t.from
      → verify c (record t { signature = some signature }) ≡ true
  unfolding verify recovered_is Crypto.address_from_public_key Crypto.get_address
  verify_signed_fields t message signature read made own =
      elim (Bool-cases (same t.from system_sender)) [
        | inl system ↦ rw system
        | inr user ↦
            rw
              (
                user,
                length-signed c s k kp message signature made,
                get_bytes-signature t (some signature),
                read,
                recover_signed c s k kp message signature made,
                recovered_is,
              )
              (rw (← own) (same_refl (Crypto.get_address c k)))
      ]

  -- A transaction that `sign` returns verifies, for any key pair and any fields; the signature is
  -- the only field that `sign` changes.
  pub verify-sign :
      (t u : Transaction)
      → sign c k t ≡ some u
      → (verify c u ≡ true) × (u ≡ record t { signature = u.signature })
  verify-sign t u e =
      let (message, signature, read, made, own, built) = sign-eq t u e in
      (rw (← built) (verify_signed_fields t message signature read made own), rw (← built))
