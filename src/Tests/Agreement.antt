-- ===== src/Tests/Agreement.antt =====
-- A test of the agreement of two nodes.
use bery_bc.Base.{
  ℕ, ◌≡◌, refl, sym, ◌∙◌, inl, inr, false, some, List, [], ◌∷◌, Bool-cases, same, arith,
}
use bery_bc.Base.Throws.{some-inj}
use bery_bc.Base.TextMap.{lookup, insert}
use bery_bc.Bytes.{Text}
use bery_bc.Consensus.Node.{Node, Vote, precommit, find_vote, bucket, get_quorum, total_power}
use bery_bc.Consensus.Quorum.{counted_as, count_votes}
use bery_bc.Consensus.Agreement.{IsHonest, quorums_agree}
use bery_bc.Tests.Consensus.{node, vote_of}

abbrev addresses : List Text
addresses = (1 ∷ []) ∷ (2 ∷ []) ∷ (3 ∷ []) ∷ (4 ∷ []) ∷ []

abbrev early_votes : List Vote
early_votes = vote_of (1 ∷ []) (8 ∷ []) ∷ vote_of (2 ∷ []) (8 ∷ []) ∷ vote_of (3 ∷ []) (8 ∷ []) ∷ []

abbrev late_votes : List Vote
late_votes = vote_of (4 ∷ []) (8 ∷ []) ∷ vote_of (3 ∷ []) (8 ∷ []) ∷ vote_of (2 ∷ []) (8 ∷ []) ∷ []

abbrev with_votes : List Vote → Node ℕ
with_votes vs = record node {
  votes = (record { height = 6; round = 0; type = precommit }, vs) ∷ [];
}

AllFor : Text → List Vote → Type 0
AllFor h [] = Unit {0}
AllFor h (v ∷ vs) = (counted_as v ≡ h) × AllFor h vs

found_counts :
    (h a : Text) (vs : List Vote) (v : Vote)
    → AllFor h vs
    → find_vote a vs ≡ some v
    → counted_as v ≡ h
unfolding AllFor find_vote
found_counts h a [] v all e = cc
found_counts h a (w ∷ vs) v (first, all) e = elim (Bool-cases (same w.validator a)) [
  | inl g ↦ rw (sym (some-inj (rw (g) at e))) first
  | inr g ↦ found_counts h a vs v all (rw (g) at e)
]

votes-IsHonest : IsHonest (λ a. false) early_votes late_votes
unfolding AllFor counted_as
votes-IsHonest a v w honest e g =
    found_counts (8 ∷ []) a early_votes v (refl, (refl, (refl, tt))) e
    ∙ sym (found_counts (8 ∷ []) a late_votes w (refl, (refl, (refl, tt))) g)

quorums_agree_example : ◌≡◌ {A = Text} (8 ∷ []) (8 ∷ [])
unfolding bucket find_vote get_quorum total_power count_votes counted_as same lookup insert
quorums_agree_example =
    quorums_agree addresses (λ a. false) 6 0 (with_votes early_votes) (with_votes late_votes)
      (8 ∷ []) (8 ∷ []) refl refl (omega arith)
      ((refl, (refl, (refl, tt))), (refl, (refl, (refl, tt))))
      ((refl, (refl, (refl, tt))), (refl, (refl, (refl, tt)))) votes-IsHonest (omega arith)
      (omega arith)
