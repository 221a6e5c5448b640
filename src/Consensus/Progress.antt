-- ===== src/Consensus/Progress.antt =====
-- The handlers of a node, taken as steps that undo nothing.
use bery_bc.Base.{
  ℕ, ◌≤◌, ◌≡◌, refl, inl, inr, true, false, List, [], ◌∷◌, ◌++◌, leb, Bool-cases, Option-cases,
}
use bery_bc.Base.TextMap.{TextMap, lookup}
use bery_bc.Bytes.{Bytes, Text}
use bery_bc.Core.Transaction.{Transaction}
use bery_bc.Core.Transaction
use bery_bc.Core.Block.{Block, header_hash}
use bery_bc.Vm.Executor.{Receipt}
use bery_bc.Consensus.Node.{
  Node, Ledger, Vote, has_slashed, same_hash, find_vote, bucket, get_quorum, prevote, precommit,
}
use bery_bc.Consensus.Signing.{sign_vote, verify_vote}
use bery_bc.Consensus.Round.{Setup, update_validators}
use bery_bc.Consensus.Commit.{
  commit_block, finish_commit, fail_commit, remove_all, run_block, coinbase_first,
}
use bery_bc.Consensus.Quorum.{
  vote_key, slash_validator, receive, jump, decide, precommit_loop, check_precommits,
  handle_precommit, lock_on, prevote_loop, count_votes, check_prevotes, handle_prevote,
}
use bery_bc.Consensus.Ballots.{push_vote-IsBallots}
use bery_bc.Consensus.Follows.{
  Follows, kept, still, stay, and_then, if-Follows, elim-Follows, start_round-Follows,
}
use native.Mathlib.Omega.{arith}

has_slashed-append :
    (x a : Text) (bans : List Text)
    → has_slashed x bans ≡ true
    → has_slashed x (bans ++ a ∷ []) ≡ true
unfolding has_slashed
has_slashed-append x a [] h = cc
has_slashed-append x a (b ∷ bs) h = ground (arith, has_slashed-append x a bs)

le_self : (n : ℕ) → n ≤ n
le_self n = omega arith

module _ (s : Setup) (l : Ledger) where
  open l use {World, commit}

  remove_all-Follows :
      (ts : List Transaction) (n : Node World) → Follows s.crypto n (remove_all s l ts n).0
  unfolding remove_all
  remove_all-Follows [] n = stay n
  remove_all-Follows (t ∷ ts) n = elim (Option-cases (Transaction.hash s.crypto t)) [
    | inl e ↦ rw (e, remove_all) (stay n)
    | inr (h, e) ↦ rw (e, remove_all) (and_then (still refl refl refl) (remove_all-Follows ts _))
  ]

  fail_commit-Follows : (n : Node World) → Follows s.crypto n (fail_commit s l n)
  unfolding fail_commit
  fail_commit-Follows n = and_then (still refl refl refl) (start_round-Follows s l _ _ _)

  finish_commit-Follows :
      (b : Block) (hash : Bytes) (receipts : List Receipt) (n : Node World)
      → n.height ≤ b.header.height
      → Follows s.crypto n (finish_commit s l b hash receipts n)
  unfolding finish_commit update_validators
  finish_commit-Follows b hash receipts n h =
      and_then (and_then (kept h refl refl) (remove_all-Follows b.transactions _)) (
        if-Follows _ (and_then (still refl refl refl) (start_round-Follows s l _ _ _))
          (fail_commit-Follows _))

  lower_height : (a b : ℕ) → leb a b ≡ false → b ≤ a
  lower_height a b h = ground arith

  pub commit_block-Follows :
      (b : Block) (n : Node World) → Follows s.crypto n (commit_block s l b n)
  unfolding commit_block
  commit_block-Follows b n = elim (Bool-cases (leb b.header.height n.height)) [
    | inl e ↦ rw (e) (stay n)
    | inr e ↦ rw (e) (
        elim-Follows (header_hash s.crypto b.header) (fail_commit-Follows n) (λ hash.
          if-Follows (coinbase_first 0 b.transactions)
            (elim-Follows (commit (run_block s l b n.world).0)
              (and_then (still refl refl refl)
                (fail_commit-Follows (record n { world = (run_block s l b n.world).0 })))
              (λ w.
                and_then (still refl refl refl)
                  (finish_commit-Follows b hash _ _ (lower_height _ _ e))))
            (stay n)))
  ]

  slash_validator-Follows : (a : Text) (n : Node World) → Follows s.crypto n (slash_validator a n)
  unfolding slash_validator
  slash_validator-Follows a n = if-Follows (has_slashed a n.slashed_validators) (stay n) (record {
    height_grows = le_self n.height;
    bans_stay = λ x h. has_slashed-append x a n.slashed_validators h;
    ballots_stay = λ h. h;
  })

  pub receive-Follows : (v : Vote) (n : Node World) → Follows s.crypto n (receive s l v n).0
  unfolding receive
  receive-Follows v n = elim (Bool-cases (leb v.height n.height)) [
    | inl e ↦ rw (e) (stay n)
    | inr e ↦ rw (e) (elim (Bool-cases (has_slashed v.validator n.slashed_validators)) [
      | inl f ↦ rw (f) (stay n)
      | inr f ↦ rw (f) (elim (Option-cases (find_vote v.validator (bucket (vote_key v) n.votes))) [
        | inl g ↦ rw (g) (elim (Bool-cases (verify_vote s.crypto v)) [
          | inl d ↦ rw (d) (record {
            height_grows = omega arith;
            bans_stay = λ x h. h;
            ballots_stay = push_vote-IsBallots s.crypto (vote_key v) v n.votes d g;
          })
          | inr d ↦ rw (d) (stay n)
        ])
        | inr (old, g) ↦ rw (g) (elim (Bool-cases (same_hash old.block_hash v.block_hash)) [
          | inl d ↦ rw (d) (stay n)
          | inr d ↦ rw (d) (slash_validator-Follows v.validator n)
        ])
      ])
    ])
  ]

  jump-Follows : (height round : ℕ) (n : Node World) → Follows s.crypto n (jump s l height round n)
  unfolding jump
  jump-Follows height round n = if-Follows _ (start_round-Follows s l height round n) (stay n)

  decide-Follows :
      (height round : ℕ) (hash : Text) (n : Node World)
      → Follows s.crypto n (decide s l height round hash n)
  unfolding decide
  decide-Follows height round hash n =
      if-Follows _
        (if-Follows _ (and_then (still refl refl refl) (start_round-Follows s l _ _ _))
          (elim-Follows (lookup hash n.pending_blocks) (stay n) (λ b. commit_block-Follows b n)))
        (stay n)

  precommit_loop-Follows :
      (q height round : ℕ) (m : TextMap ℕ) (n : Node World)
      → Follows s.crypto n (precommit_loop s l q height round m n)
  unfolding precommit_loop
  precommit_loop-Follows q height round [] n = stay n
  precommit_loop-Follows q height round ((hash, power) ∷ m) n =
      and_then
        (if-Follows (leb q power)
          (and_then (jump-Follows height round n) (decide-Follows height round hash _)) (stay n))
        (precommit_loop-Follows q height round m _)

  pub check_precommits-Follows :
      (height round : ℕ) (n : Node World) → Follows s.crypto n (check_precommits s l height round n)
  unfolding check_precommits
  check_precommits-Follows height round n =
      precommit_loop-Follows (get_quorum n.validators) height round
        (count_votes (bucket (record { height = height; round = round; type = precommit }) n.votes)
          [])
        n

  pub handle_precommit-Follows :
      (v : Vote) (n : Node World) → Follows s.crypto n (handle_precommit s l v n)
  unfolding handle_precommit
  handle_precommit-Follows v n =
      and_then (receive-Follows v n)
        (if-Follows (receive s l v n).1 (check_precommits-Follows v.height v.round _) (stay _))

  lock_on-Follows :
      (height round : ℕ) (hash : Text) (n : Node World)
      → Follows s.crypto n (lock_on s l height round hash n)
  unfolding lock_on
  lock_on-Follows height round hash n =
      if-Follows _
        (elim-Follows (sign_vote s.crypto s.key_pair _) (still refl refl refl) (λ signed.
          and_then (and_then (still refl refl refl) (handle_precommit-Follows signed _))
            (check_precommits-Follows height round _)))
        (stay n)

  prevote_loop-Follows :
      (q height round : ℕ) (m : TextMap ℕ) (n : Node World)
      → Follows s.crypto n (prevote_loop s l q height round m n)
  unfolding prevote_loop
  prevote_loop-Follows q height round [] n = stay n
  prevote_loop-Follows q height round ((hash, power) ∷ m) n =
      and_then
        (if-Follows (leb q power)
          (and_then (jump-Follows height round n) (lock_on-Follows height round hash _)) (stay n))
        (prevote_loop-Follows q height round m _)

  pub check_prevotes-Follows :
      (height round : ℕ) (n : Node World) → Follows s.crypto n (check_prevotes s l height round n)
  unfolding check_prevotes
  check_prevotes-Follows height round n =
      prevote_loop-Follows (get_quorum n.validators) height round
        (count_votes (bucket (record { height = height; round = round; type = prevote }) n.votes)
          [])
        n

  pub handle_prevote-Follows :
      (v : Vote) (n : Node World) → Follows s.crypto n (handle_prevote s l v n)
  unfolding handle_prevote
  handle_prevote-Follows v n =
      and_then (receive-Follows v n)
        (if-Follows (receive s l v n).1 (check_prevotes-Follows v.height v.round _) (stay _))
