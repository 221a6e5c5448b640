-- ===== src/Consensus/Runs.antt =====
-- Whole runs of a node undo nothing.
use bery_bc.Base.{ℕ, ◌≤◌, ◌≡◌, true, refl, Option, List, [], ◌∷◌}
use bery_bc.Base.Int.{ℤ}
use bery_bc.Bytes.{Bytes, Text}
use bery_bc.Core.Transaction.{Transaction}
use bery_bc.Core.Block.{Block}
use bery_bc.Core.Block.Json.{BlockJson}
use bery_bc.Consensus.Node.{
  Node, Ledger, Vote, VoteType, prevote, precommit, Phase, propose, prevoting, precommitting,
  committed, Task, propose_block, own_vote, has_slashed,
}
use bery_bc.Consensus.Ballots.{IsBallots}
use bery_bc.Consensus.Signing.{sign_vote}
use bery_bc.Consensus.Round.{Setup}
use bery_bc.Consensus.Quorum
use bery_bc.Consensus.Quorum.{handle_vote, vote_nil, handle_timeout}
use bery_bc.Consensus.Proposal.{
  vote_for, keep_block, check_block, try_block, handle_block, build_block, publish, payload_of,
}
use bery_bc.Consensus.Proposal
use bery_bc.Consensus.System.{
  Event, block_received, vote_received, timer_fired, task_resumed, resume, step, run,
}
use bery_bc.Consensus.Follows.{
  Follows, still, stay, and_then, if-Follows, elim-Follows, start_round-Follows,
}
use bery_bc.Consensus.Progress.{
  handle_prevote-Follows, handle_precommit-Follows, check_prevotes-Follows,
}

module _ (s : Setup) (l : Ledger) where
  open l use {World, checkpoint, execute}

  handle_vote-Follows : (v : Vote) (n : Node World) → Follows s.crypto n (handle_vote s l v n)
  unfolding handle_vote
  handle_vote-Follows v n = by_type v.type
    where
      by_type :
          (t : VoteType)
          → Follows s.crypto n (elim t [
            | prevote ↦ Quorum.handle_prevote s l v n
            | precommit ↦ Quorum.handle_precommit s l v n
          ])
      by_type prevote = handle_prevote-Follows s l v n
      by_type precommit = handle_precommit-Follows s l v n

  vote_nil-Follows :
      (t : VoteType) (phase : Phase) (n : Node World) → Follows s.crypto n (vote_nil s l t phase n)
  unfolding vote_nil
  vote_nil-Follows t phase n = if-Follows _ (stay n) (
      elim-Follows (sign_vote s.crypto s.key_pair _) (stay n) (λ signed.
        and_then (and_then (still refl refl refl) (handle_vote-Follows signed _))
          (still refl refl refl)))

  handle_timeout-Follows : (n : Node World) → Follows s.crypto n (handle_timeout s l n)
  unfolding handle_timeout
  handle_timeout-Follows n = if-Follows n.stopped (stay n) (by_step n.step)
    where
      by_step :
          (p : Phase)
          → Follows s.crypto n (elim p [
            | propose ↦ vote_nil s l prevote prevoting n
            | prevoting ↦ vote_nil s l precommit precommitting n
            | precommitting ↦ Quorum.next_round s l n
            | committed ↦ n
          ])
      by_step propose = vote_nil-Follows prevote prevoting n
      by_step prevoting = vote_nil-Follows precommit precommitting n
      by_step precommitting = and_then (still refl refl refl) (start_round-Follows s l _ _ _)
      by_step committed = stay n

  keep_block-Follows :
      (round : Option ℕ) (hash : Bytes) (b : Block) (n : Node World)
      → Follows s.crypto n (keep_block s l round hash b n)
  unfolding keep_block vote_for
  keep_block-Follows round hash b n = elim-Follows round (still refl refl refl) (λ r.
      if-Follows _
        (elim-Follows (sign_vote s.crypto s.key_pair _) (still refl refl refl) (λ signed.
          and_then (and_then (still refl refl refl) (handle_prevote-Follows s l signed _))
            (check_prevotes-Follows s l _ _ _)))
        (and_then (still refl refl refl) (check_prevotes-Follows s l _ _ _)))

  handle_block-Follows :
      (j : BlockJson) (n : Node World) → Follows s.crypto n (handle_block s l j n)
  unfolding handle_block
  handle_block-Follows j n = if-Follows n.stopped (stay n) (
      elim-Follows (check_block s l j n) (stay n) (λ e.
        if-Follows _ (and_then (still refl refl refl) (keep_block-Follows _ _ _ _))
          (still refl refl refl)))

  propose_block-Follows :
      (reward : ℤ) (pool : List Transaction) (timestamp : ℕ) (n : Node World)
      → Follows s.crypto n (Proposal.propose_block s l reward pool timestamp n)
  unfolding Proposal.propose_block publish
  propose_block-Follows reward pool timestamp n =
      elim-Follows (execute (payload_of s l reward pool n) (checkpoint n.world)).1
        (still refl refl refl)
        (λ e.
          elim-Follows (build_block s l timestamp e _ n) (still refl refl refl)
            (λ p. and_then (still refl refl refl) (handle_block-Follows p.1 _)))

  resume-Follows :
      (reward : ℤ) (pool : List Transaction) (timestamp : ℕ) (ts : List Task) (n : Node World)
      → Follows s.crypto n (resume s l reward pool timestamp ts n)
  unfolding resume
  resume-Follows reward pool timestamp [] n = stay n
  resume-Follows reward pool timestamp (propose_block ∷ ts) n =
      and_then (still refl refl refl) (propose_block-Follows reward pool timestamp _)
  resume-Follows reward pool timestamp (own_vote v ∷ ts) n =
      and_then (still refl refl refl) (handle_vote-Follows v _)

  step-Follows : (e : Event) (n : Node World) → Follows s.crypto n (step s l e n)
  unfolding step
  step-Follows (block_received j) n = handle_block-Follows j n
  step-Follows (vote_received v) n = handle_vote-Follows v n
  step-Follows timer_fired n = handle_timeout-Follows n
  step-Follows (task_resumed reward pool timestamp) n =
      resume-Follows reward pool timestamp n.tasks n

  run-Follows : (es : List Event) (n : Node World) → Follows s.crypto n (run s l es n)
  unfolding run
  run-Follows [] n = stay n
  run-Follows (e ∷ es) n = and_then (step-Follows e n) (run-Follows es _)

  -- Whatever happens to a node, in whatever order, its committed height does not fall.
  pub run_height_le : (es : List Event) (n : Node World) → n.height ≤ (run s l es n).height
  run_height_le es n = (run-Follows es n).height_grows

  -- A validator that is banned stays banned, whatever happens to the node.
  pub run_keeps_bans :
      (es : List Event) (n : Node World) (a : Text)
      → has_slashed a n.slashed_validators ≡ true
      → has_slashed a (run s l es n).slashed_validators ≡ true
  run_keeps_bans es n a h = (run-Follows es n).bans_stay a h

  -- If every bucket of votes holds verified votes of different validators, so it does after
  -- whatever happens to the node.
  pub run-IsBallots :
      (es : List Event) (n : Node World)
      → IsBallots s.crypto n.votes
      → IsBallots s.crypto (run s l es n).votes
  run-IsBallots es n h = (run-Follows es n).ballots_stay h
