-- ===== src/Consensus/Round.antt =====
-- The validator set and the start of a round: `updateValidators`, `hasVoted` and `startRound`.
use bery_bc.Base.{
  ℕ, Bool, true, false, Option, none, some, List, [], ◌∷◌, ◌++◌, map, same, not, leb, ◌==◌, ◌&&◌,
  if◌then◌else◌,
}
use bery_bc.Base.Int.{pos, ltb_ℤ}
use bery_bc.Base.TextMap.{TextMap}
use bery_bc.Bytes.{Text}
use bery_bc.Crypto.{Crypto, KeyPair}
use bery_bc.Crypto
use bery_bc.Core.Block.{Block}
use bery_bc.Vm.Staking.{text_lt}
use bery_bc.Consensus.Node.{
  Validator, Vote, VoteType, prevote, propose, prevoting, Ledger, send_vote, set_timer,
  propose_block, own_vote, Node, bucket, find_vote, has_slashed, get_proposer, emit,
}
use bery_bc.Consensus.Signing.{sign_vote}

-- The place of a validator in the order of the keys; `localeCompare` orders lower-case hexadecimal
-- texts as their codes.
unfoldable pub place : Validator → List Validator → List Validator
place v [] = v ∷ []
place v (u ∷ us) = if text_lt u.public_key v.public_key then u ∷ place v us else v ∷ u ∷ us

unfoldable pub sort_by_key : List Validator → List Validator
unfolding place
sort_by_key [] = []
sort_by_key (v ∷ vs) = place v (sort_by_key vs)

-- Every validator has the same power.
abbrev pub with_power : Text → Validator
with_power a = record { public_key = a; power = 10 }

-- What a node is started with: its key pair, the validators of the configuration, and the part of
-- the fees that goes to the proposer, `Math.floor((1 - feeBurnRatio) * 1000)`.
pub record Setup : Type 0 where
  pub crypto : Crypto
  pub key_pair : KeyPair
  pub config_validators : List Text
  pub fee_permille : ℕ

abbrev pub my_address : Setup → Text
my_address s = Crypto.get_address s.crypto s.key_pair

module _ (s : Setup) (l : Ledger) where
  open l use {World, stakers, stake_of}

  -- The stakers that are not slashed and have a stake.
  unfoldable pub active_validators : List Text → World → List Text → List Validator
  active_validators slashed w [] = []
  active_validators slashed w (a ∷ others) =
      let rest = active_validators slashed w others in
      if has_slashed a slashed
      then rest
      else if ltb_ℤ (pos 0) (stake_of w a)
      then with_power a ∷ rest
      else rest

  abbrev unless_empty : List Validator → List Validator → List Validator
  unless_empty [] old = old
  unless_empty (v ∷ vs) old = v ∷ vs

  -- The validators after `updateValidators`; a throw leaves them as they are.
  unfoldable pub next_validators : Node World → List Validator
  unfolding active_validators sort_by_key
  next_validators n = elim (stakers n.world) [
    | none ↦ n.validators
    | some [] ↦ unless_empty n.validators (map with_power s.config_validators)
    | some (a ∷ others) ↦
        unless_empty (sort_by_key (active_validators n.slashed_validators n.world (a ∷ others)))
          n.validators
  ]

  unfoldable pub update_validators : Node World → Node World
  unfolding next_validators
  update_validators n = record n { validators = next_validators n }

  abbrev is_there : Option Vote → Bool
  is_there none = false
  is_there (some v) = true

  unfoldable pub has_voted : ℕ → ℕ → VoteType → Node World → Bool
  has_voted height round type n = is_there (
      find_vote (my_address s)
        (bucket (record { height = height; round = round; type = type }) n.votes))

  -- The node's own vote.
  abbrev pub ballot : VoteType → Option Text → ℕ → ℕ → Vote
  ballot type block_hash height round = record {
    height = height;
    round = round;
    type = type;
    block_hash = block_hash;
    validator = my_address s;
    signature = [];
  }

  -- `broadcastVote` without an `await`: the vote goes out, and is handled later.
  unfoldable pub broadcast_later : Vote → Node World → Node World
  broadcast_later v n = elim (sign_vote s.crypto s.key_pair v) [
    | none ↦ n
    | some signed ↦ emit (send_vote signed) (record n { tasks = n.tasks ++ (own_vote signed) ∷ [] })
  ]

  -- The round's proposal among the pending blocks, by its proposer.
  unfoldable pub is_proposal : ℕ → ℕ → Text → Block → Bool
  is_proposal height round proposer b =
      (b.header.height == height) && (b.header.round == round) && same b.header.validator proposer

  -- The loop over the pending blocks; the keys of the map are the hashes of the blocks.
  unfoldable pub vote_for_pending : ℕ → ℕ → Text → TextMap Block → Node World → Node World
  unfolding is_proposal has_voted broadcast_later
  vote_for_pending height round proposer [] n = n
  vote_for_pending height round proposer ((hash, b) ∷ m) n =
      vote_for_pending height round proposer m (
        if is_proposal height round proposer b && not (has_voted height round prevote n)
        then broadcast_later (ballot prevote (some hash) height round)
            (emit (set_timer round) (record n { step = prevoting }))
        else n)

  -- What a proposer does, and what the others do. With no validator the access throws.
  unfoldable pub lead_or_follow : ℕ → ℕ → Option Validator → Node World → Node World
  unfolding vote_for_pending
  lead_or_follow height round none n = n
  lead_or_follow height round (some v) n =
      if same v.public_key (my_address s)
      then record n { tasks = n.tasks ++ propose_block ∷ [] }
      else vote_for_pending height round v.public_key n.pending_blocks n

  -- In round 0 the validators are read first, and no event happens in between.
  unfoldable pub start_round : ℕ → ℕ → Node World → Node World
  unfolding lead_or_follow
  start_round height round n =
      if n.stopped
      then n
      else if leb height n.height
      then n
      else let m = if round == 0 then update_validators n else n in
        lead_or_follow height round (get_proposer m.validators height round)
          (emit (set_timer round) (record m { round = round; step = propose }))
