-- ===== src/Crypto/Toy.antt =====
-- Stand-ins for the libraries at which the hypotheses on them hold; the key is the signature.
use bery_bc.Base.Throws.{some-inj, none-ne-some}
use bery_bc.Bytes.HexLaws.{IsBytes}
use bery_bc.Base.{
  ◌≢◌, ◌||◌, ◌%◌, ◌∙◌, ap, inl, inr, Bool-cases, ==_iff, take-append, ℕ, ◌≡◌, refl, Bool, true,
  Option, none, some, [], ◌∷◌, ◌++◌, length, take, replicate, same, same_refl, arith, length-take,
  length-append, length-replicate, ◌==◌, if◌then◌else◌,
}
use bery_bc.Bytes.{Bytes}
use bery_bc.Crypto.Defs.{Crypto, IsSound}

-- The first `n` bytes, filled up with zeros.
abbrev pub fit : ℕ → Bytes → Bytes
fit n m = take n (m ++ replicate n 0)

abbrev pub toy_sign : Bytes → Bytes → Option (Bytes × ℕ)
toy_sign h sk = if length sk == 32 then some (sk ++ fit 32 h, 0) else none

abbrev pub toy_recover : Bytes → ℕ → Bytes → Option Bytes
toy_recover sig recid h =
    if same sig (take 32 sig ++ fit 32 h) then some (2 ∷ take 32 sig) else none

abbrev pub toy_verify : Bytes → Bytes → Bytes → Option Bool
toy_verify sig h pk =
    if length pk == 33 || length pk == 65 then some (same (2 ∷ sig) (pk ++ fit 32 h)) else none

-- The remainders modulo 256.
unfoldable pub low_bytes : Bytes → Bytes
low_bytes [] = []
low_bytes (b ∷ bs) = (b % 256) ∷ low_bytes bs

abbrev pub toy : Crypto
toy = record {
  generichash = fit 32;
  keccak_256 = λ m. low_bytes (fit 32 m);
  hash_sha256 = fit 32;
  private_key_verify = λ sk. length sk == 32;
  public_key_create = λ sk. if length sk == 32 then some (2 ∷ sk) else none;
  ecdsa_sign = toy_sign;
  ecdsa_verify = toy_verify;
  ecdsa_recover = toy_recover;
}

length-fit : (n : ℕ) (m : Bytes) → length (fit n m) ≡ n
length-fit n m = omega (
  arith,
  length-take n (m ++ replicate n 0),
  length-append m (replicate n 0),
  length-replicate {A = ℕ} n 0,
)

toy_sign-eq :
    (h sk sig : Bytes) (recid : ℕ)
    → toy_sign h sk ≡ some (sig, recid)
    → (length sk ≡ 32) × (sk ++ fit 32 h ≡ sig)
toy_sign-eq h sk sig recid e = elim (Bool-cases (length sk == 32)) [
  | inl right ↦
      let p : (sk ++ fit 32 h, 0) ≡ (sig, recid) = some-inj (rw right at e) in
      ((==_iff (length sk) 32).0 right, ap (λ r. r.0) p)
  | inr wrong ↦ absurd (none-ne-some {a = (sig, recid)} (rw wrong at e))
]

toy_key : (sk pk : Bytes) → toy.public_key_create sk ≡ some pk → 2 ∷ sk ≡ pk
toy_key sk pk e = ground arith

toy_recover_self :
    (h sk : Bytes) (recid : ℕ)
    → length sk ≡ 32
    → toy_recover (sk ++ fit 32 h) recid h ≡ some (2 ∷ sk)
toy_recover_self h sk recid n = rw (take-append 32 sk (fit 32 h) n, same_refl (sk ++ fit 32 h))

toy_verify_self :
    (h sk : Bytes) → length sk ≡ 32 → toy_verify (sk ++ fit 32 h) h (2 ∷ sk) ≡ some true
toy_verify_self h sk n = rw (n, same_refl (2 ∷ (sk ++ fit 32 h)))

toy_verify-length :
    (sig h pk : Bytes) → length pk ≢ 33 → length pk ≢ 65 → toy_verify sig h pk ≡ none
toy_verify-length sig h pk a b = ground arith

length-low_bytes : (m : Bytes) → length (low_bytes m) ≡ length m
unfolding low_bytes
length-low_bytes [] = refl
length-low_bytes (b ∷ m) = omega (arith, length-low_bytes m)

low_bytes-IsBytes : (m : Bytes) → IsBytes (low_bytes m)
unfolding low_bytes
low_bytes-IsBytes [] = tt
low_bytes-IsBytes (b ∷ m) = (omega arith, low_bytes-IsBytes m)

-- The hypotheses on the libraries can be met.
pub toy-IsSound : IsSound toy
toy-IsSound = record {
  hash_length = length-fit 32;
  keccak_length = λ m. length-low_bytes (fit 32 m) ∙ length-fit 32 m;
  keccak_bytes = λ m. low_bytes-IsBytes (fit 32 m);
  verify_key_length = toy_verify-length;
  sign_length = λ h sk sig recid e.
      let (n, p) = toy_sign-eq h sk sig recid e in
      rw (← p) (omega (arith, length-append sk (fit 32 h), length-fit 32 h));
  recover-sign = λ h sk pk sig recid k e.
      let (n, p) = toy_sign-eq h sk sig recid e in
      rw (← toy_key sk pk k, ← p) (toy_recover_self h sk recid n);
  verify-sign = λ h sk pk sig recid k e.
      let (n, p) = toy_sign-eq h sk sig recid e in
      rw (← toy_key sk pk k, ← p) (toy_verify_self h sk n);
}
