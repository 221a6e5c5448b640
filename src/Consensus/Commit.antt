-- ===== src/Consensus/Commit.antt =====
-- `commitBlock`. Writes to the block store are taken to succeed.
use bery_bc.Base.{
  ℕ, zero, suc, ◌+◌, ◌*◌, ◌/◌, Bool, true, false, none, some, List, [], ◌∷◌, same, not, leb, ◌==◌,
  ◌&&◌, if◌then◌else◌,
}
use bery_bc.Base.Int.{ℤ, pos, negsuc, ltb_ℤ}
use bery_bc.Bytes.{Bytes}
use bery_bc.Core.Transaction.{Transaction, system_sender}
use bery_bc.Core.Transaction
use bery_bc.Core.Block.{Block, header_hash}
use bery_bc.Vm.Executor.{Receipt}
use bery_bc.Consensus.Node.{
  propose, committed, Executed, Ledger, save_block, save_receipts, remove_tx, emit_committed, Node,
  emit,
}
use bery_bc.Consensus.Round.{Setup, start_round, update_validators}

-- `muln(p).divn(1000)`, which rounds toward zero.
unfoldable pub permille : ℕ → ℤ → ℤ
permille p (pos n) = pos (n * p / 1000)
permille p (negsuc n) = elim (suc n * p / 1000) [ zero ↦ pos 0 | suc k ↦ negsuc k ]

-- Only the first transaction may be the system's.
unfoldable pub coinbase_first : ℕ → List Transaction → Bool
coinbase_first i [] = true
coinbase_first i (t ∷ ts) =
    if same t.from system_sender && not (i == 0) then false else coinbase_first (i + 1) ts

module _ (s : Setup) (l : Ledger) where
  open l use {World, checkpoint, commit, revert, execute, credit}

  -- The proposer's share is paid if it is positive; a throw of the payment is caught.
  unfoldable pub pay_proposer : Block → Executed → World → World
  unfolding permille
  pay_proposer b e w =
      let share = permille s.fee_permille e.total_fees in
      if ltb_ℤ (pos 0) share
      then elim (credit b.header.validator share w) [ none ↦ w | some paid ↦ paid ]
      else w

  -- The execution of the block and its receipts; a throw of the execution is caught.
  unfoldable pub run_block : Block → World → World × List Receipt
  unfolding pay_proposer
  run_block b w =
      let executed = execute b.transactions (checkpoint w) in
      elim executed.1 [
        | none ↦ (executed.0, [])
        | some e ↦ (pay_proposer b e executed.0, e.receipts)
      ]

  -- The world after `revert`, whose throw is caught.
  abbrev pub reverted : World → World
  reverted w = elim (revert w) [ none ↦ w | some old ↦ old ]

  -- The handler of a failed commit: the state is reverted and the next round begins.
  unfoldable pub fail_commit : Node World → Node World
  fail_commit n =
      start_round s l (n.height + 1) (n.round + 1)
        (record n { world = reverted n.world; step = propose; round = n.round + 1 })

  -- The loop over the mempool; false where a hash throws.
  unfoldable pub remove_all : List Transaction → Node World → Node World × Bool
  remove_all [] n = (n, true)
  remove_all (t ∷ ts) n = elim (Transaction.hash s.crypto t) [
    | none ↦ (n, false)
    | some hash ↦ remove_all ts (emit (remove_tx t) n)
  ]

  abbrev clear_pending : Block → Node World → Node World
  clear_pending b n =
      emit (emit_committed b) (record n { pending_blocks = []; locked_block = none })

  -- After the commit of the state.
  unfoldable pub finish_commit : Block → Bytes → List Receipt → Node World → Node World
  unfolding remove_all
  finish_commit b hash receipts n =
      let m =
        update_validators s l
          (emit (save_receipts b.header.height receipts) (emit (save_block b) n)) in
      let r =
        remove_all b.transactions
          (record m { height = b.header.height; last_commit_hash = hash; step = committed }) in
      if r.1 then start_round s l (b.header.height + 1) 0 (clear_pending b r.0) else fail_commit r.0

  unfoldable pub commit_block : Block → Node World → Node World
  unfolding coinbase_first run_block finish_commit fail_commit
  commit_block b n =
      if leb b.header.height n.height then n else elim (header_hash s.crypto b.header) [
        | none ↦ fail_commit n
        | some hash ↦
            if coinbase_first 0 b.transactions
            then elim (commit (run_block b n.world).0) [
              | none ↦ fail_commit (record n { world = (run_block b n.world).0 })
              | some w ↦ finish_commit b hash (run_block b n.world).1 (record n { world = w })
            ]
            else n
      ]
