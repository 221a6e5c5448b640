-- ===== src/Core/Merkle/Defs.antt =====
-- The class `MerkleTree`.
use bery_bc.Base.{
  ℕ, zero, suc, ◌%◌, Option, none, some, List, [], ◌∷◌, ◌++◌, length, ◌==◌, if◌then◌else◌,
}
use bery_bc.Bytes.{Bytes}
use bery_bc.Crypto.{Crypto}

-- `layer.push(layer[layer.length - 1])`
unfoldable pub push_last : List Bytes → List Bytes
push_last [] = []
push_last (x ∷ []) = x ∷ x ∷ []
push_last (x ∷ y ∷ l) = x ∷ push_last (y ∷ l)

unfoldable pub pad_layer : List Bytes → List Bytes
unfolding push_last
pad_layer layer = if length layer % 2 == 0 then layer else push_last layer

module _ (c : Crypto) where
  -- The `for` loop over the pairs of a layer of even length.
  unfoldable pub join_pairs : List Bytes → List Bytes
  join_pairs [] = []
  join_pairs (x ∷ []) = []
  join_pairs (x ∷ y ∷ l) = c.hash_sha256 (x ++ y) ∷ join_pairs l

  -- The `while` loop; each round at least halves the layer, rounded up, so its length is fuel enough.
  unfoldable pub layers : ℕ → List Bytes → Option Bytes
  unfolding pad_layer join_pairs
  layers fuel [] = none
  layers fuel (x ∷ []) = some x
  layers zero (x ∷ y ∷ l) = none
  layers (suc fuel) (x ∷ y ∷ l) = layers fuel (join_pairs (pad_layer (x ∷ y ∷ l)))

  unfoldable pub compute_root : List Bytes → Option Bytes
  unfolding layers
  compute_root [] = some (c.generichash [])
  compute_root (x ∷ l) = layers (length l) (x ∷ l)
