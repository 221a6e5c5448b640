-- ===== src/Storage/Keys.antt =====
-- The keys of the block store, and that they do not clash.
use bery_bc.Base.{
  ℕ, ◌≡◌, refl, ap, sym, ◌∙◌, false, [], ◌∷◌, ◌++◌, same, same_refl, same-eq, Bool-cases, inl, inr,
  ◌==◌, ==_iff, arith,
}
use bery_bc.Base.Int.{pos, negsuc}
use bery_bc.Base.Throws.{some-inj}
use bery_bc.Bytes.{Text, to_string}
use bery_bc.Bytes.Decimal.{of_decimal, of_decimal-to_string}

-- `height.toString()`
abbrev pub decimal : ℕ → Text
decimal n = to_string 10 (pos n)

-- `block:${height}`
unfoldable pub block_key : ℕ → Text
block_key height = (b'b' ∷ b'l' ∷ b'o' ∷ b'c' ∷ b'k' ∷ b':' ∷ []) ++ decimal height

abbrev index : Text
index = b'i' ∷ b'n' ∷ b'd' ∷ b'e' ∷ b'x' ∷ b':' ∷ []

-- `index:blockHash:${hash}`
unfoldable pub hash_key : Text → Text
hash_key hash =
    index ++ (b'b' ∷ b'l' ∷ b'o' ∷ b'c' ∷ b'k' ∷ b'H' ∷ b'a' ∷ b's' ∷ b'h' ∷ b':' ∷ []) ++ hash

-- `index:tx:${hash}`
unfoldable pub tx_key : Text → Text
tx_key hash = index ++ (b't' ∷ b'x' ∷ b':' ∷ []) ++ hash

-- `index:addr:${address}:${hash}`
unfoldable pub address_key : Text → Text → Text
address_key address hash =
    index ++ (b'a' ∷ b'd' ∷ b'd' ∷ b'r' ∷ b':' ∷ []) ++ address ++ (b':' ∷ []) ++ hash

-- `receipt:${hash}`
unfoldable pub receipt_key : Text → Text
receipt_key hash = (b'r' ∷ b'e' ∷ b'c' ∷ b'e' ∷ b'i' ∷ b'p' ∷ b't' ∷ b':' ∷ []) ++ hash

-- `logs:${height}`
unfoldable pub logs_key : ℕ → Text
logs_key height = (b'l' ∷ b'o' ∷ b'g' ∷ b's' ∷ b':' ∷ []) ++ decimal height

abbrev meta : Text
meta = b'm' ∷ b'e' ∷ b't' ∷ b'a' ∷ b':' ∷ []

-- `meta:blockGasUsed:${height}`
unfoldable pub gas_key : ℕ → Text
gas_key height =
    meta
    ++ (b'b' ∷ b'l' ∷ b'o' ∷ b'c' ∷ b'k' ∷ b'G' ∷ b'a' ∷ b's' ∷ b'U' ∷ b's' ∷ b'e' ∷ b'd' ∷ b':'
        ∷ [])
    ++ decimal height

-- `meta:logsBloom:${height}`
unfoldable pub bloom_key : ℕ → Text
bloom_key height =
    meta
    ++ (b'l' ∷ b'o' ∷ b'g' ∷ b's' ∷ b'B' ∷ b'l' ∷ b'o' ∷ b'o' ∷ b'm' ∷ b':' ∷ [])
    ++ decimal height

-- 'meta:head'
unfoldable pub head_key : Text
head_key = meta ++ (b'h' ∷ b'e' ∷ b'a' ∷ b'd' ∷ [])

-- 'meta:slashed'
unfoldable pub slashed_key : Text
slashed_key = meta ++ (b's' ∷ b'l' ∷ b'a' ∷ b's' ∷ b'h' ∷ b'e' ∷ b'd' ∷ [])

pos-inj : (m n : ℕ) → pos m ≡ pos n → m ≡ n
pos-inj m n e = ap (λ z. elim z [ pos k ↦ k | negsuc k ↦ 0 ]) e

decimal-inj : (m n : ℕ) → decimal m ≡ decimal n → m ≡ n
decimal-inj m n e =
    pos-inj m n (
      some-inj
        (sym (of_decimal-to_string (pos m)) ∙ ap of_decimal e ∙ of_decimal-to_string (pos n)))

pub same-decimal : (m n : ℕ) → same (decimal m) (decimal n) ≡ (m == n)
same-decimal m n = elim (Bool-cases (m == n)) [
  | inl e ↦ rw (e, (==_iff m n).0 e) (same_refl (decimal n))
  | inr e ↦ elim (Bool-cases (same (decimal m) (decimal n))) [
    | inl s ↦ absurd (ground (arith, decimal-inj m n (same-eq (decimal m) (decimal n) s)))
    | inr s ↦ rw (e, s) refl
  ]
]

pub same-block_key : (m n : ℕ) → same (block_key m) (block_key n) ≡ (m == n)
unfolding block_key same
same-block_key m n = same-decimal m n

pub same-logs_key : (m n : ℕ) → same (logs_key m) (logs_key n) ≡ (m == n)
unfolding logs_key same
same-logs_key m n = same-decimal m n

pub same-hash_key : (g h : Text) → same (hash_key g) (hash_key h) ≡ same g h
unfolding hash_key same
same-hash_key g h = refl

pub same-tx_key : (g h : Text) → same (tx_key g) (tx_key h) ≡ same g h
unfolding tx_key same
same-tx_key g h = refl

-- No other key that a block is saved under is that of a block.
module _ (height : ℕ) (x y : Text) where
  pub block_key-hash_key : same (block_key height) (hash_key x) ≡ false
  unfolding block_key hash_key same
  block_key-hash_key = refl

  pub block_key-tx_key : same (block_key height) (tx_key x) ≡ false
  unfolding block_key tx_key same
  block_key-tx_key = refl

  pub block_key-address_key : same (block_key height) (address_key x y) ≡ false
  unfolding block_key address_key same
  block_key-address_key = refl

  pub hash_key-block_key : same (hash_key x) (block_key height) ≡ false
  unfolding block_key hash_key same
  hash_key-block_key = refl

  pub hash_key-tx_key : same (hash_key x) (tx_key y) ≡ false
  unfolding hash_key tx_key same
  hash_key-tx_key = refl

  pub tx_key-hash_key : same (tx_key x) (hash_key y) ≡ false
  unfolding hash_key tx_key same
  tx_key-hash_key = refl

  pub tx_key-block_key : same (tx_key x) (block_key height) ≡ false
  unfolding block_key tx_key same
  tx_key-block_key = refl

module _ (x y z : Text) where
  pub hash_key-address_key : same (hash_key x) (address_key y z) ≡ false
  unfolding hash_key address_key same
  hash_key-address_key = refl

  pub tx_key-address_key : same (tx_key x) (address_key y z) ≡ false
  unfolding tx_key address_key same
  tx_key-address_key = refl

pub block_key-head_key : (height : ℕ) → same (block_key height) head_key ≡ false
unfolding block_key head_key same
block_key-head_key height = refl

pub hash_key-head_key : (x : Text) → same (hash_key x) head_key ≡ false
unfolding hash_key head_key same
hash_key-head_key x = refl

pub tx_key-head_key : (x : Text) → same (tx_key x) head_key ≡ false
unfolding tx_key head_key same
tx_key-head_key x = refl
