-- ===== src/Consensus/Ballots.antt =====
-- The buckets of votes: each validator once, each signature verified.
use bery_bc.Base.{
  ◌≡◌, refl, inl, inr, true, false, none, some, List, [], ◌∷◌, ◌++◌, same, same_iff, Bool-cases,
}
use bery_bc.Bytes.{Text}
use bery_bc.Crypto.{Crypto}
use bery_bc.Consensus.Node.{Vote, VoteKey, Buckets, bucket, push_vote, find_vote, same_key}
use bery_bc.Consensus.Signing.{verify_vote}
use native.Mathlib.Omega.{arith}

module _ (c : Crypto) where
  -- Every vote is signed by its validator, and no validator has two votes.
  unfoldable pub IsBucket : List Vote → Type 0
  IsBucket [] = Unit
  IsBucket (v ∷ vs) = (verify_vote c v ≡ true) × (find_vote v.validator vs ≡ none) × IsBucket vs

  unfoldable pub IsBallots : Buckets → Type 0
  unfolding IsBucket
  IsBallots [] = Unit
  IsBallots ((k, vs) ∷ m) = IsBucket vs × IsBallots m

  find_vote-append :
      (a : Text) (v : Vote) (vs : List Vote)
      → same v.validator a ≡ false
      → find_vote a vs ≡ none
      → find_vote a (vs ++ v ∷ []) ≡ none
  unfolding find_vote
  find_vote-append a v [] d h = simp (d)
  find_vote-append a v (w ∷ vs) d h = ground (arith, find_vote-append a v vs d)

  same_sym : (a b : Text) → same a b ≡ false → same b a ≡ false
  same_sym a b h = ground (arith, same_iff a b, same_iff b a)

  some-ne-none {ℓ} : {A : Type ℓ} {a : A} → some a ≡ none → ⊥
  some-ne-none h = cc

  find_vote_tail :
      (a : Text) (w : Vote) (vs : List Vote)
      → find_vote a (w ∷ vs) ≡ none
      → (same w.validator a ≡ false) × (find_vote a vs ≡ none)
  unfolding find_vote
  find_vote_tail a w vs h = elim (Bool-cases (same w.validator a)) [
    | inl e ↦ elim (some-ne-none {a = w} (rw (e) at h)) [ ]
    | inr e ↦ (e, rw (e) at h)
  ]

  append-IsBucket :
      (v : Vote) (vs : List Vote)
      → verify_vote c v ≡ true
      → find_vote v.validator vs ≡ none
      → IsBucket vs
      → IsBucket (vs ++ v ∷ [])
  unfolding IsBucket find_vote
  append-IsBucket v [] s h b = (s, refl, tt)
  append-IsBucket v (w ∷ vs) s h (sw, fw, b) =
      let t = find_vote_tail v.validator w vs h in
      (
        sw,
        find_vote-append w.validator v vs (same_sym w.validator v.validator t.0) fw,
        append-IsBucket v vs s t.1 b,
      )

  pub push_vote-IsBallots :
      (k : VoteKey) (v : Vote) (m : Buckets)
      → verify_vote c v ≡ true
      → find_vote v.validator (bucket k m) ≡ none
      → IsBallots m
      → IsBallots (push_vote k v m)
  unfolding IsBallots IsBucket find_vote push_vote bucket
  push_vote-IsBallots k v [] s h b = ((s, refl, tt), tt)
  push_vote-IsBallots k v ((j, vs) ∷ m) s h (bv, bm) = elim (Bool-cases (same_key k j)) [
    | inl e ↦ rw (e) (append-IsBucket v vs s (rw (e) at h) bv, bm)
    | inr e ↦ rw (e) (bv, push_vote-IsBallots k v m s (rw (e) at h) bm)
  ]
