-- ===== src/Consensus/Proposal.antt =====
-- `handleBlock` and `proposeBlock`.
use bery_bc.Base.{
  ℕ, ◌+◌, Bool, true, false, Option, none, some, List, [], ◌∷◌, same, not, leb, ◌==◌, ◌&&◌,
  if◌then◌else◌,
}
use bery_bc.Base.Int.{ℤ, pos}
use bery_bc.Base.TextMap.{insert}
use bery_bc.Base.Throws.{◌>>=◌}
use bery_bc.Bytes.{Bytes, Text, to_hex}
use bery_bc.Core.Transaction.{Transaction, system_sender}
use bery_bc.Core.Block.{Block, header_hash, sign, create}
use bery_bc.Core.Block.Json.{BlockJson, header_from_json, transactions_from_json, to_json}
use bery_bc.Consensus.Node.{
  Validator, prevote, prevoting, Executed, Ledger, send_vote, send_block, set_timer, Node,
  get_proposer, emit,
}
use bery_bc.Consensus.Signing.{sign_vote}
use bery_bc.Consensus.Round.{Setup, my_address, has_voted, ballot}
use bery_bc.Consensus.Commit.{reverted}
use bery_bc.Consensus.Quorum.{check_prevotes, handle_prevote}

-- The lock allows the block: none is locked, or its transactions have the same root.
unfoldable pub allowed_by : Option Block → Text → Bool
allowed_by none root = true
allowed_by (some b) root = same root (to_hex b.header.transactions_root)

-- `proposer.publicKey !== blockProposer`; no proposer is a throw, which is caught.
unfoldable pub is_proposer : Option Validator → Text → Bool
is_proposer none a = false
is_proposer (some v) a = same v.public_key a

module _ (s : Setup) (l : Ledger) where
  open l use {World, root, checkpoint, execute}

  -- The execution on a checkpoint; true if the root is the header's. The world is reverted after a
  -- right root or a throw, and reverted twice after a wrong root.
  unfoldable pub try_block : List Transaction → Bytes → World → World × Bool
  try_block txs state_root w =
      let executed = execute txs (checkpoint w) in
      elim executed.1 [
        | none ↦ (reverted s l executed.0, false)
        | some e ↦
            if same (root executed.0) state_root
            then (reverted s l executed.0, true)
            else (reverted s l (reverted s l executed.0), false)
      ]

  -- The checks under the lock: the hash and the block, if the block is to be kept. A header has a
  -- validator; the name `proposer`, which the code reads where that is missing, is not in its JSON form.
  unfoldable pub check_block : BlockJson → Node World → Option (Bytes × Block)
  unfolding allowed_by is_proposer
  check_block j n =
      if leb j.header.height n.height
      then none
      else if allowed_by n.locked_block j.header.transactions_root
      then (do
        hash ← header_hash s.crypto (header_from_json j.header)
        transactions ← transactions_from_json j.transactions
        if is_proposer (get_proposer n.validators j.header.height n.round) j.header.validator
            then some
                (hash, record { header = header_from_json j.header; transactions = transactions })
            else none)
      else none

  -- The vote for the block, which is awaited; a throw of its signature ends the handler.
  unfoldable pub vote_for : Text → ℕ → ℕ → Node World → Node World
  vote_for hash height round n =
      elim (sign_vote s.crypto s.key_pair (ballot s l prevote (some hash) height round)) [
        | none ↦ emit (set_timer n.round) (record n { step = prevoting })
        | some signed ↦ check_prevotes s l height round (
            handle_prevote s l signed
              (emit (send_vote signed) (emit (set_timer n.round) (record n { step = prevoting }))))
      ]

  -- After the checks. The round in the header is read without a default: with no round there, the
  -- block is kept, and neither voted for nor counted.
  unfoldable pub keep_block : Option ℕ → Bytes → Block → Node World → Node World
  unfolding vote_for has_voted
  keep_block round hash b n =
      let m = record n { pending_blocks = insert (to_hex hash) b n.pending_blocks } in
      elim round [
        | none ↦ m
        | some r ↦
            if (b.header.height == m.height + 1)
              && (r == m.round)
              && not (has_voted s l b.header.height m.round prevote m)
            then vote_for (to_hex hash) b.header.height r m
            else check_prevotes s l b.header.height r m
      ]

  unfoldable pub handle_block : BlockJson → Node World → Node World
  unfolding try_block check_block keep_block
  handle_block j n = if n.stopped then n else elim (check_block j n) [
    | none ↦ n
    | some (hash, b) ↦
        let tried = try_block b.transactions b.header.state_root n.world in
        if tried.1
        then keep_block j.header.round hash b (record n { world = tried.0 })
        else record n { world = tried.0 }
  ]

  -- The reward of the proposer, for `getBlockReward(height)`.
  abbrev pub coinbase : ℤ → ℕ → Transaction
  coinbase reward height = record {
    from = system_sender;
    to = my_address s;
    value = reward;
    nonce = height;
    gas_limit = 21000;
    gas_price = pos 0;
    payload = [];
    signature = none;
    eth_hash = none;
  }

  -- The transactions of the proposal; `pool` is `mempool.getTransactions(100)`.
  unfoldable pub payload_of : ℤ → List Transaction → Node World → List Transaction
  payload_of reward pool n = elim n.locked_block [
    | some b ↦ b.transactions
    | none ↦ coinbase reward (n.height + 1) ∷ pool
  ]

  -- The block of an execution and its JSON form, at this time.
  unfoldable pub build_block : ℕ → Executed → World → Node World → Option (Block × BlockJson)
  build_block timestamp e w n = do
    b ←
        create s.crypto n.last_commit_hash (root w) (my_address s) e.valid_txs (n.height + 1)
          n.round timestamp
    header ← sign s.crypto s.key_pair b.header
    j ← to_json s.crypto (record b { header = header })
    some (record b { header = header }, j)

  -- What is left of `proposeBlock` after the execution. The JSON form throws where the hash of a
  -- transaction throws, which the block has computed already.
  unfoldable pub publish : ℕ → Executed → World → Node World → Node World
  unfolding build_block handle_block
  publish timestamp e w n = elim (build_block timestamp e w n) [
    | none ↦ record n { world = reverted s l w }
    | some (b, j) ↦ handle_block j (emit (send_block b) (record n { world = reverted s l w }))
  ]

  unfoldable pub propose_block : ℤ → List Transaction → ℕ → Node World → Node World
  unfolding payload_of publish
  propose_block reward pool timestamp n =
      let executed = execute (payload_of reward pool n) (checkpoint n.world) in
      elim executed.1 [
        | none ↦ record n { world = reverted s l executed.0 }
        | some e ↦ publish timestamp e executed.0 n
      ]
