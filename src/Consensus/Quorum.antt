-- ===== src/Consensus/Quorum.antt =====
-- `handleVote`, `checkQuorum`, `slashValidator`, `broadcastVote` and `handleTimeout`. The precommit of a node counts
-- as soon as it is sent, so the handlers of precommits come before those of prevotes.
use bery_bc.Base.{
  ℕ, ◌+◌, Bool, true, false, Option, none, some, List, [], ◌∷◌, ◌++◌, same, leb, ltb, ◌==◌, ◌&&◌,
  if◌then◌else◌,
}
use bery_bc.Base.TextMap.{TextMap, lookup, insert}
use bery_bc.Bytes.{Text}
use bery_bc.Core.Block.{Block}
use bery_bc.Consensus.Node.{
  Vote, VoteType, prevote, precommit, Phase, propose, prevoting, precommitting, committed, Ledger,
  send_vote, save_slashed, set_timer, VoteKey, Node, same_hash, bucket, push_vote, find_vote,
  has_slashed, get_quorum, emit,
}
use bery_bc.Consensus.Signing.{sign_vote, verify_vote}
use bery_bc.Consensus.Round.{Setup, start_round, has_voted, ballot}
use bery_bc.Consensus.Commit.{commit_block}

abbrev pub vote_key : Vote → VoteKey
vote_key v = record { height = v.height; round = v.round; type = v.type }

-- "nil", the key that stands for no block.
abbrev pub nil_text : Text
nil_text = 110 ∷ 105 ∷ 108 ∷ []

-- `v.blockHash || 'nil'`
unfoldable pub counted_as : Vote → Text
counted_as v = elim v.block_hash [ none ↦ nil_text | some [] ↦ nil_text | some (x ∷ xs) ↦ x ∷ xs ]

abbrev pub or_zero : Option ℕ → ℕ
or_zero none = 0
or_zero (some n) = n

-- The votes counted by hash, ten for each.
unfoldable pub count_votes : List Vote → TextMap ℕ → TextMap ℕ
unfolding counted_as
count_votes [] counts = counts
count_votes (v ∷ vs) counts =
    count_votes vs (insert (counted_as v) (or_zero (lookup (counted_as v) counts) + 10) counts)

unfoldable pub slash_validator : {W : Type 0} → Text → Node W → Node W
slash_validator a n =
    if has_slashed a n.slashed_validators
    then n
    else emit (save_slashed (n.slashed_validators ++ a ∷ []))
        (record n { slashed_validators = n.slashed_validators ++ a ∷ [] })

abbrev is_open : Phase → Bool
is_open propose = true
is_open prevoting = true
is_open precommitting = false
is_open committed = false

abbrev is_committed : Phase → Bool
is_committed propose = false
is_committed prevoting = false
is_committed precommitting = false
is_committed committed = true

abbrev named : Text → Option Text
named hash = if same hash nil_text then none else some hash

module _ (s : Setup) (l : Ledger) where
  open l use {World}

  -- The vote handler up to the count. A vote that is to be counted comes with true.
  unfoldable pub receive : Vote → Node World → Node World × Bool
  unfolding slash_validator
  receive v n =
      if leb v.height n.height
      then (n, false)
      else if has_slashed v.validator n.slashed_validators
      then (n, false)
      else elim (find_vote v.validator (bucket (vote_key v) n.votes)) [
        | some old ↦
            if same_hash old.block_hash v.block_hash
            then (n, false)
            else (slash_validator v.validator n, false)
        | none ↦
            if verify_vote s.crypto v
            then (record n { votes = push_vote (vote_key v) v n.votes }, true)
            else (n, false)
      ]

  -- The catch-up to a later round.
  unfoldable pub jump : ℕ → ℕ → Node World → Node World
  jump height round n =
      if (height == n.height + 1) && ltb n.round round then start_round s l height round n else n

  abbrev pub next_round : Node World → Node World
  next_round n = start_round s l (n.height + 1) (n.round + 1) (record n { round = n.round + 1 })

  -- A hash with a quorum of precommits.
  unfoldable pub decide : ℕ → ℕ → Text → Node World → Node World
  decide height round hash n =
      if (height == n.height + 1) && (if is_committed n.step then ltb n.round round else true)
      then if same hash nil_text
        then next_round n
        else elim (lookup hash n.pending_blocks) [ none ↦ n | some b ↦ commit_block s l b n ]
      else n

  -- The loop of `checkQuorum` for precommits; the quorum is the one before the loop.
  unfoldable pub precommit_loop : ℕ → ℕ → ℕ → TextMap ℕ → Node World → Node World
  unfolding jump decide
  precommit_loop quorum height round [] n = n
  precommit_loop quorum height round ((hash, power) ∷ m) n =
      precommit_loop quorum height round m
        (if leb quorum power then decide height round hash (jump height round n) else n)

  unfoldable pub check_precommits : ℕ → ℕ → Node World → Node World
  unfolding precommit_loop count_votes
  check_precommits height round n =
      precommit_loop (get_quorum n.validators) height round
        (count_votes (bucket (record { height = height; round = round; type = precommit }) n.votes)
          [])
        n

  unfoldable pub handle_precommit : Vote → Node World → Node World
  unfolding receive check_precommits
  handle_precommit v n =
      let r = receive v n in if r.1 then check_precommits v.height v.round r.0 else r.0

  -- What a quorum of prevotes on a hash locks.
  unfoldable pub lock_for : Text → Node World → Option Block
  lock_for hash n = if same hash nil_text then n.locked_block else lookup hash n.pending_blocks

  -- A hash with a quorum of prevotes: the lock, the precommit, and the count of the precommits. A
  -- throw of the signature ends the handler; the loop has no other hash to act on, as the step
  -- stands.
  unfoldable pub lock_on : ℕ → ℕ → Text → Node World → Node World
  unfolding lock_for handle_precommit check_precommits
  lock_on height round hash n =
      if (height == n.height + 1) && (round == n.round) && is_open n.step
      then elim (sign_vote s.crypto s.key_pair (ballot s l precommit (named hash) height round)) [
        | none ↦
            emit (set_timer n.round)
              (record n { locked_block = lock_for hash n; step = precommitting })
        | some signed ↦ check_precommits height round (
            handle_precommit signed (
              emit (send_vote signed) (
                emit (set_timer n.round)
                  (record n { locked_block = lock_for hash n; step = precommitting }))))
      ]
      else n

  unfoldable pub prevote_loop : ℕ → ℕ → ℕ → TextMap ℕ → Node World → Node World
  unfolding jump lock_on
  prevote_loop quorum height round [] n = n
  prevote_loop quorum height round ((hash, power) ∷ m) n =
      prevote_loop quorum height round m
        (if leb quorum power then lock_on height round hash (jump height round n) else n)

  unfoldable pub check_prevotes : ℕ → ℕ → Node World → Node World
  unfolding prevote_loop count_votes
  check_prevotes height round n =
      prevote_loop (get_quorum n.validators) height round
        (count_votes (bucket (record { height = height; round = round; type = prevote }) n.votes)
          [])
        n

  unfoldable pub handle_prevote : Vote → Node World → Node World
  unfolding receive check_prevotes
  handle_prevote v n =
      let r = receive v n in if r.1 then check_prevotes v.height v.round r.0 else r.0

  unfoldable pub handle_vote : Vote → Node World → Node World
  unfolding handle_prevote handle_precommit
  handle_vote v n = elim v.type [ prevote ↦ handle_prevote v n | precommit ↦ handle_precommit v n ]

  -- The vote for nil of a timeout. The step is the one of `phase` after the awaited vote, whatever
  -- the vote has brought about; a throw of the signature skips it.
  unfoldable pub vote_nil : VoteType → Phase → Node World → Node World
  unfolding handle_vote
  vote_nil type phase n =
      if has_voted s l (n.height + 1) n.round type n
      then n
      else elim (sign_vote s.crypto s.key_pair (ballot s l type none (n.height + 1) n.round)) [
        | none ↦ n
        | some signed ↦
            emit (set_timer n.round)
              (record (handle_vote signed (emit (send_vote signed) n)) { step = phase })
      ]

  unfoldable pub handle_timeout : Node World → Node World
  unfolding vote_nil
  handle_timeout n = if n.stopped then n else elim n.step [
    | propose ↦ vote_nil prevote prevoting n
    | prevoting ↦ vote_nil precommit precommitting n
    | precommitting ↦ next_round n
    | committed ↦ n
  ]
