-- ===== src/Consensus/Slashing.antt =====
-- Double signing: two votes of one validator for different blocks, in one height, round and type.
use bery_bc.Base.{
  ◌≡◌, refl, ap, inl, inr, true, false, some, List, [], ◌∷◌, ◌++◌, leb, same_refl, Bool-cases,
}
use bery_bc.Bytes.{Text}
use bery_bc.Consensus.Node.{
  Node, Ledger, Vote, VoteType, prevote, precommit, has_slashed, same_hash, find_vote, bucket,
}
use bery_bc.Consensus.Round.{Setup}
use bery_bc.Consensus.Quorum.{
  vote_key, slash_validator, receive, handle_precommit, handle_prevote, handle_vote,
}
use native.Mathlib.Omega.{arith}

has_slashed-append_self : (a : Text) (bans : List Text) → has_slashed a (bans ++ a ∷ []) ≡ true
unfolding has_slashed
has_slashed-append_self a [] = rw (same_refl a) refl
has_slashed-append_self a (b ∷ bans) = ground (arith, has_slashed-append_self a bans)

slash_validator-has_slashed :
    {W : Type 0} (a : Text) (n : Node W)
    → has_slashed a (slash_validator a n).slashed_validators ≡ true
unfolding slash_validator
slash_validator-has_slashed a n = elim (Bool-cases (has_slashed a n.slashed_validators)) [
  | inl e ↦ rw (e) e
  | inr e ↦ rw (e) (has_slashed-append_self a n.slashed_validators)
]

slash_validator-votes : {W : Type 0} (a : Text) (n : Node W) → (slash_validator a n).votes ≡ n.votes
unfolding slash_validator
slash_validator-votes a n = elim (Bool-cases (has_slashed a n.slashed_validators)) [
  | inl e ↦ rw (e) refl
  | inr e ↦ rw (e) refl
]

module _ (s : Setup) (l : Ledger) where
  open l use {World}

  -- A vote that is not to be counted.
  handle_vote-uncounted :
      (v : Vote) (n m : Node World) → receive s l v n ≡ (m, false) → handle_vote s l v n ≡ m
  unfolding handle_vote handle_prevote handle_precommit
  handle_vote-uncounted v n m h = by_type v.type
    where
      by_type :
          (t : VoteType)
          → (elim t [ prevote ↦ handle_prevote s l v n | precommit ↦ handle_precommit s l v n ]) ≡ m
      by_type prevote = rw (h) refl
      by_type precommit = rw (h) refl

  -- The votes of a banned validator change nothing.
  handle_vote-banned :
      (v : Vote) (n : Node World)
      → has_slashed v.validator n.slashed_validators ≡ true
      → handle_vote s l v n ≡ n
  unfolding receive
  handle_vote-banned v n h =
      handle_vote-uncounted v n n
        (elim (Bool-cases (leb v.height n.height)) [ inl e ↦ rw (e) refl | inr e ↦ rw (e, h) refl ])

  receive_double_vote :
      (v old : Vote) (n m : Node World)
      → slash_validator v.validator n ≡ m
      → leb v.height n.height ≡ false
      → has_slashed v.validator n.slashed_validators ≡ false
      → find_vote v.validator (bucket (vote_key v) n.votes) ≡ some old
      → same_hash old.block_hash v.block_hash ≡ false
      → receive s l v n ≡ (m, false)
  unfolding receive
  receive_double_vote v old n m e a b f d = rw (a, b, f, d) (ap (λ t. (t, false)) e)

  -- Above the committed height, a validator that is not banned and whose vote for another block is
  -- held is banned by its second vote, which is not counted; then no vote of this validator changes
  -- anything.
  pub double_vote_bans :
      (v old w : Vote) (n : Node World)
      → leb v.height n.height ≡ false
      → has_slashed v.validator n.slashed_validators ≡ false
      → find_vote v.validator (bucket (vote_key v) n.votes) ≡ some old
      → same_hash old.block_hash v.block_hash ≡ false
      → w.validator ≡ v.validator
      → (has_slashed v.validator (handle_vote s l v n).slashed_validators ≡ true)
        × ((handle_vote s l v n).votes ≡ n.votes)
        × (handle_vote s l w (handle_vote s l v n) ≡ handle_vote s l v n)
  double_vote_bans v old w n a b f d same_validator =
      rw
        (handle_vote-uncounted v n (slash_validator v.validator n)
          (receive_double_vote v old n _ refl a b f d))
        (
          slash_validator-has_slashed v.validator n,
          slash_validator-votes v.validator n,
          handle_vote-banned w (slash_validator v.validator n)
              (rw (same_validator) (slash_validator-has_slashed v.validator n)),
        )
