-- ===== src/Core/Merkle/Laws.antt =====
-- The root is always found, and what it does not tell apart.
use bery_bc.Base.{
  ℕ, zero, suc, ◌+◌, ◌/◌, ◌%◌, ◌≤◌, ◌≡◌, refl, ap, sym, ◌∙◌, some, List, [], ◌∷◌, ◌++◌, length,
  arith, ◌*◌, length-append,
}
use bery_bc.Bytes.{Bytes}
use bery_bc.Crypto.{Crypto}
use bery_bc.Core.Merkle.Defs.{push_last, pad_layer, join_pairs, layers, compute_root}

push_last-append : (l : List Bytes) (x : Bytes) → push_last (l ++ x ∷ []) ≡ l ++ (x ∷ x ∷ [])
unfolding push_last
push_last-append [] x = refl
push_last-append (y ∷ []) x = refl
push_last-append (y ∷ z ∷ l) x = ap (◌∷◌ y) (push_last-append (z ∷ l) x)

length-push_last : (x : Bytes) (l : List Bytes) → length (push_last (x ∷ l)) ≡ length l + 2
unfolding push_last
length-push_last x [] = omega arith
length-push_last x (y ∷ l) = omega (arith, length-push_last y l)

length-pad_layer : (l : List Bytes) → length (pad_layer l) ≡ (length l + 1) / 2 * 2
unfolding pad_layer
length-pad_layer [] = omega arith
length-pad_layer (x ∷ l) = ground (arith, length-push_last x l)

-- A layer of odd length is padded with its last leaf.
pad_layer-odd :
    (l : List Bytes) (x : Bytes) → length l % 2 ≡ 0 → pad_layer (l ++ x ∷ []) ≡ l ++ (x ∷ x ∷ [])
unfolding pad_layer
pad_layer-odd l x h = ground (arith, length-append l (x ∷ []), push_last-append l x)

pad_layer-even : (l : List Bytes) → length l % 2 ≡ 0 → pad_layer l ≡ l
unfolding pad_layer
pad_layer-even l h = ground arith

module _ (c : Crypto) where
  length-join_pairs : (l : List Bytes) → length (join_pairs c l) ≡ length l / 2
  unfolding join_pairs
  length-join_pairs [] = omega arith
  length-join_pairs (x ∷ []) = omega arith
  length-join_pairs (x ∷ y ∷ l) = omega (arith, length-join_pairs l)

  layers_total :
      (fuel : ℕ) (x : Bytes) (l : List Bytes)
      → length l ≤ fuel
      → (r : Bytes) × (layers c fuel (x ∷ l) ≡ some r)
  unfolding layers
  layers_total fuel x [] h = (x, refl)
  layers_total zero x (y ∷ l) h = absurd (omega arith)
  layers_total (suc fuel) x (y ∷ l) h =
      go (join_pairs c (pad_layer (x ∷ y ∷ l))) halved (layers_total fuel)
    where
      halved : length (join_pairs c (pad_layer (x ∷ y ∷ l))) ≡ (length l + 3) / 2
      halved =
          omega (arith, length-join_pairs (pad_layer (x ∷ y ∷ l)), length-pad_layer (x ∷ y ∷ l))

      go :
          (m : List Bytes)
          → length m ≡ (length l + 3) / 2
          → ((z : Bytes) (k : List Bytes)
              → length k ≤ fuel
              → (r : Bytes) × (layers c fuel (z ∷ k) ≡ some r))
          → (r : Bytes) × (layers c fuel m ≡ some r)
      go [] e rest = absurd (omega arith)
      go (z ∷ k) e rest = rest z k (omega arith)

  -- `computeRoot` ends with a root for every list of leaves: its loop needs no more rounds than
  -- there are leaves.
  pub compute_root_total : (l : List Bytes) → (r : Bytes) × (compute_root c l ≡ some r)
  unfolding compute_root
  compute_root_total [] = (c.generichash [], refl)
  compute_root_total (x ∷ l) = layers_total (length l) x l (omega arith)

  layers-suc :
      (fuel : ℕ) (l : List Bytes) {r : Bytes}
      → layers c fuel l ≡ some r
      → layers c (suc fuel) l ≡ some r
  unfolding layers
  layers-suc fuel [] h = cc
  layers-suc fuel (x ∷ []) h = h
  layers-suc zero (x ∷ y ∷ l) h = cc
  layers-suc (suc fuel) (x ∷ y ∷ l) h = layers-suc fuel (join_pairs c (pad_layer (x ∷ y ∷ l))) h

  -- A round on a layer of odd length joins the same pairs as on that layer with its last leaf
  -- written twice.
  layers-duplicate :
      (fuel : ℕ) (w : Bytes) (l : List Bytes) (x : Bytes)
      → length l % 2 ≡ 1
      → layers c (suc fuel) (w ∷ l ++ x ∷ []) ≡ layers c (suc fuel) (w ∷ l ++ (x ∷ x ∷ []))
  unfolding layers
  layers-duplicate fuel w [] x h = absurd (omega arith)
  layers-duplicate fuel w (y ∷ l) x h =
      ap (λ m. layers c fuel (join_pairs c m))
        (pad_layer-odd (w ∷ y ∷ l) x (omega arith)
          ∙ sym (
              pad_layer-even (w ∷ y ∷ l ++ (x ∷ x ∷ []))
                (omega (arith, length-append l (x ∷ x ∷ [])))))

  -- Repeating the last of an odd number of leaves, more than one, does not change the root.
  pub compute_root-duplicate :
      (w : Bytes) (l : List Bytes) (x : Bytes)
      → length l % 2 ≡ 1
      → compute_root c (w ∷ l ++ x ∷ []) ≡ compute_root c (w ∷ l ++ (x ∷ x ∷ []))
  unfolding compute_root
  compute_root-duplicate w [] x h = absurd (omega arith)
  compute_root-duplicate w (y ∷ l) x h =
      let m = l ++ x ∷ [] in
      let (r, found) = layers_total (suc (length m)) w (y ∷ m) (omega arith) in
      let same_round = layers-duplicate (length m) w (y ∷ l) x h in
      let one_more : length (l ++ (x ∷ x ∷ [])) ≡ suc (length m) =
        omega (arith, length-append l (x ∷ x ∷ []), length-append l (x ∷ [])) in
      found
      ∙ sym (
          rw one_more
            (layers-suc (suc (length m)) (w ∷ y ∷ l ++ (x ∷ x ∷ [])) (sym same_round ∙ found)))
