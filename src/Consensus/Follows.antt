-- ===== src/Consensus/Follows.antt =====
-- What no step of a node undoes: the height never falls, no ban is lifted, and the buckets of votes
-- keep their form.
use bery_bc.Base.{
  ℕ, ◌≤◌, ◌≡◌, refl, Bool, true, false, Option, none, some, [], ◌∷◌, leb, if◌then◌else◌,
}
use mathlib.Core.Path.{subst}
use bery_bc.Base.TextMap.{TextMap}
use bery_bc.Bytes.{Text}
use bery_bc.Core.Block.{Block}
use bery_bc.Consensus.Node.{Node, Ledger, Validator, Vote, has_slashed}
use bery_bc.Consensus.Signing.{sign_vote}
use bery_bc.Consensus.Round.{
  Setup, start_round, update_validators, lead_or_follow, vote_for_pending, broadcast_later,
}
use bery_bc.Consensus.Ballots.{IsBallots}
use bery_bc.Crypto.{Crypto}
use native.Mathlib.Omega.{arith}

pub record Follows {W : Type 0} (c : Crypto) (n m : Node W) : Type 0 where
  pub height_grows : n.height ≤ m.height
  pub bans_stay :
      (x : Text)
      → has_slashed x n.slashed_validators ≡ true
      → has_slashed x m.slashed_validators ≡ true
  pub ballots_stay : IsBallots c n.votes → IsBallots c m.votes

module _ {W : Type 0} {c : Crypto} where
  pub kept :
      {n m : Node W}
      → n.height ≤ m.height
      → n.slashed_validators ≡ m.slashed_validators
      → n.votes ≡ m.votes
      → Follows c n m
  kept e a b = record {
    height_grows = e;
    bans_stay = λ x h. subst (λ t. has_slashed x t ≡ true) a h;
    ballots_stay = λ h. subst (IsBallots c) b h;
  }

  pub still :
      {n m : Node W}
      → n.height ≡ m.height
      → n.slashed_validators ≡ m.slashed_validators
      → n.votes ≡ m.votes
      → Follows c n m
  still e a b = kept (omega (arith, e)) a b

  pub stay : (n : Node W) → Follows c n n
  stay n = still refl refl refl

  pub and_then : {n m k : Node W} → Follows c n m → Follows c m k → Follows c n k
  and_then f g = record {
    height_grows = omega (arith, f.height_grows, g.height_grows);
    bans_stay = λ x h. g.bans_stay x (f.bans_stay x h);
    ballots_stay = λ h. g.ballots_stay (f.ballots_stay h);
  }

  pub if-Follows :
      {n x y : Node W} (b : Bool) → Follows c n x → Follows c n y → Follows c n (if b then x else y)
  if-Follows true f g = f
  if-Follows false f g = g

  pub elim-Follows {ℓ} :
      {A : Type ℓ} {n x : Node W} {f : A → Node W} (o : Option A)
      → Follows c n x
      → ((a : A) → Follows c n (f a))
      → Follows c n (elim o [ none ↦ x | some a ↦ f a ])
  elim-Follows none f g = f
  elim-Follows (some a) f g = g a

module _ (s : Setup) (l : Ledger) where
  open l use {World}

  broadcast_later-Follows :
      (v : Vote) (n : Node World) → Follows s.crypto n (broadcast_later s l v n)
  unfolding broadcast_later
  broadcast_later-Follows v n =
      elim-Follows (sign_vote s.crypto s.key_pair v) (still refl refl refl)
        (λ signed. still refl refl refl)

  vote_for_pending-Follows :
      (height round : ℕ) (proposer : Text) (m : TextMap Block) (n : Node World)
      → Follows s.crypto n (vote_for_pending s l height round proposer m n)
  unfolding vote_for_pending
  vote_for_pending-Follows height round proposer [] n = stay n
  vote_for_pending-Follows height round proposer ((hash, b) ∷ m) n =
      and_then
        (if-Follows _ (and_then (still refl refl refl) (broadcast_later-Follows _ _)) (stay n))
        (vote_for_pending-Follows height round proposer m _)

  lead_or_follow-Follows :
      (height round : ℕ) (o : Option Validator) (n : Node World)
      → Follows s.crypto n (lead_or_follow s l height round o n)
  unfolding lead_or_follow
  lead_or_follow-Follows height round none n = stay n
  lead_or_follow-Follows height round (some v) n =
      if-Follows _ (still refl refl refl)
        (vote_for_pending-Follows height round v.public_key n.pending_blocks n)

  pub start_round-Follows :
      (height round : ℕ) (n : Node World) → Follows s.crypto n (start_round s l height round n)
  unfolding start_round update_validators
  start_round-Follows height round n = if-Follows n.stopped (stay n) (
      if-Follows (leb height n.height) (stay n) (
        and_then (if-Follows {x = update_validators s l n} _ (still refl refl refl) (stay n))
          (and_then (still refl refl refl) (lead_or_follow-Follows height round _ _))))
