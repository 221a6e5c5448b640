-- ===== src/Crypto/Signatures.antt =====
-- What a key pair signs is recovered to its public key, and verified by it.
use bery_bc.Base.{
  ℕ, suc, zero, ◌≡◌, refl, true, some, List, [], ◌∷◌, ◌++◌, length, arith, length-append,
  take-append, get_elem?,
}
use bery_bc.Base.Throws.{>>=-eq-some, some-inj}
use bery_bc.Bytes.{Bytes}
use bery_bc.Crypto.Defs.{Crypto, IsSound, KeyPair, sign, recover, verify}

get_elem?-last {ℓ} :
    {A : Type ℓ} (n : ℕ) (xs : List A) (a : A) → length xs ≡ n → get_elem? (xs ++ a ∷ []) n ≡ some a
get_elem?-last zero [] a h = refl
get_elem?-last zero (x ∷ xs) a h = absurd (omega arith)
get_elem?-last (suc n) [] a h = absurd (omega arith)
get_elem?-last (suc n) (x ∷ xs) a h = get_elem?-last n xs a (omega arith)

-- The public key of the pair is that of its private key.
abbrev pub IsKeyPair : Crypto → KeyPair → Type 0
IsKeyPair c k = c.public_key_create k.private_key ≡ some k.public_key

module _ (c : Crypto) (s : IsSound c) (k : KeyPair) (kp : IsKeyPair c k)
    (message signature : Bytes) where
  sign_parts :
      sign c k message ≡ some signature
      → (sig : Bytes) × (recid : ℕ) × (length sig ≡ 64)
        × (sig ++ recid ∷ [] ≡ signature)
        × (c.ecdsa_sign (c.generichash message) k.private_key ≡ some (sig, recid))
  unfolding sign
  sign_parts e =
      let ((sig, recid), made, joined) =
        >>=-eq-some (c.ecdsa_sign (c.generichash message) k.private_key)
          (λ r. some (r.0 ++ r.1 ∷ [])) e in
      (sig, recid, s.sign_length _ _ sig recid made, some-inj joined, made)

  -- The 65 bytes of a signature give back the public key that signed.
  pub recover_signed :
      sign c k message ≡ some signature → recover c signature message ≡ some k.public_key
  unfolding recover
  recover_signed e =
      let (sig, recid, n, joined, made) = sign_parts e in
      rw
        (
          ← joined,
          length-append sig (recid ∷ []),
          n,
          take-append 64 sig (recid ∷ []) n,
          get_elem?-last 64 sig recid n,
        )
        (s.recover-sign _ _ _ _ _ kp made)

  -- Its first 64 bytes pass the verification under that key.
  pub verify_signed :
      sign c k message ≡ some signature → verify c signature message k.public_key ≡ some true
  unfolding verify
  verify_signed e =
      let (sig, recid, n, joined, made) = sign_parts e in
      rw (← joined, length-append sig (recid ∷ []), n, take-append 64 sig (recid ∷ []) n, verify)
        (s.verify-sign _ _ _ _ _ kp made)

  pub length-signed : sign c k message ≡ some signature → length signature ≡ 65
  length-signed e =
      let (sig, recid, n, joined, made) = sign_parts e in
      rw (← joined) (omega (arith, n, length-append sig (recid ∷ [])))
