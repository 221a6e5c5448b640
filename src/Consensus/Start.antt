-- ===== src/Consensus/Start.antt =====
-- `start`, `stop`, `syncBlockchain` and `handleSyncRequest`. What the peers answer is the record
-- `Peers`; a call of the network that throws gives no answer. The delay before the first
-- synchronisation, and the timer that runs on in a stopped node, are not modelled.
use bery_bc.Base.{
  ℕ, suc, zero, ◌+◌, ◌-◌, Bool, true, false, Option, none, some, List, [], ◌∷◌, leb, ltb,
  if◌then◌else◌,
}
use Prim.Native.Nat.{min}
use bery_bc.Base.Throws.{◌>>=◌}
use bery_bc.Bytes.{Text, from_hex, to_hex}
use bery_bc.Crypto.{Crypto}
use bery_bc.Core.Block.{Block}
use bery_bc.Consensus.Node.{Ledger, Node}
use bery_bc.Consensus.Round.{Setup, start_round, update_validators}
use bery_bc.Consensus.Sync.{sync_answer}
use bery_bc.Storage.Database.{Database, Forms, Head}
use bery_bc.Storage.Blocks.{get_head, get_slashed_validators}
use bery_bc.Vm.Staking.{JsonLists}

-- The answers of the peers: the status of each in turn, and the blocks that the best one sends to
-- the request number `k` for the heights from `start` to `end`.
pub record Peers : Type 0 where
  pub statuses : List (Option ℕ)
  pub blocks : ℕ → ℕ → ℕ → Option (List Block)

-- The greatest height that a peer has above the own one.
unfoldable pub best_height : ℕ → List (Option ℕ) → ℕ
best_height max [] = max
best_height max (none ∷ ss) = best_height max ss
best_height max (some h ∷ ss) = best_height (if ltb max h then h else max) ss

module _ (s : Setup) (l : Ledger) where
  open l use {World}

  -- One answer: whether the loop of requests goes on, and the node.
  unfoldable pub take_answer : Option (List Block) → Node World → Node World × Bool
  unfolding sync_answer
  take_answer none n = (n, false)
  take_answer (some []) n = (n, false)
  take_answer (some (b ∷ bs)) n = sync_answer s l (b ∷ bs) n

  -- The loop of requests, number `k` being the next; an answer without blocks ends it, and so does a
  -- throw.
  unfoldable pub fetch : ℕ → Peers → ℕ → ℕ → Node World → Node World
  unfolding take_answer
  fetch zero p max k n = n
  fetch (suc fuel) p max k n =
      let r = take_answer (p.blocks k (n.height + 1) max) n in
      let rest = fetch fuel p max (k + 1) r.0 in
      if ltb n.height max then (if r.1 then rest else r.0) else n

  -- The end of a synchronisation.
  unfoldable pub resume_round : Node World → Node World
  resume_round n =
      let m = record (update_validators s l n) { stopped = false } in
      start_round s l (m.height + 1) 0 m

  -- Where no peer is higher, the code ends twice: before its `return` and in its `finally`.
  -- Each request that does not end the loop raises the height, so the heights that are missing are
  -- fuel enough.
  unfoldable pub sync_blockchain : Peers → Node World → Node World
  unfolding fetch resume_round best_height
  sync_blockchain p n =
      let max = best_height n.height p.statuses in
      let paused = record n { stopped = true } in
      if leb max n.height
      then resume_round (resume_round paused)
      else resume_round (fetch (max - n.height) p max 0 paused)

  unfoldable pub stop : Node World → Node World
  stop n = record n { stopped = true }

  module _ (db : Database) (f : Forms) (j : JsonLists) where
    abbrev with_head : Option Head → Node World → Node World
    with_head none n = n
    with_head (some head) n = record n {
      height = head.height;
      last_commit_hash = from_hex head.hash;
    }

    -- `none` where the head cannot be parsed. The set has each validator once; the list is the one
    -- that was saved.
    unfoldable pub start : Crypto → db.Db → Node World → Option (Node World)
    start c d n = do
      head ← get_head db f c d
      let m = with_head head n
      let ready = record m {
        slashed_validators = get_slashed_validators db f c j d;
        stopped = false;
      }
      some (start_round s l (ready.height + 1) 0 ready)

-- `handleSyncRequest`
pub data SyncRequest : Type 0 where
  get_status : SyncRequest
  get_blocks : ℕ → ℕ → SyncRequest

pub data SyncAnswer : Type 0 where
  status : ℕ → Text → SyncAnswer
  blocks : List Block → SyncAnswer

-- The loop over `count` heights from `height`, up to the first that is missing.
unfoldable pub chain_from : (ℕ → Option Block) → ℕ → ℕ → List Block
chain_from chain zero height = []
chain_from chain (suc count) height =
    let rest = chain_from chain count (height + 1) in
    elim (chain height) [ none ↦ [] | some b ↦ b ∷ rest ]

-- The blocks of an answer are decoded: their JSON form is not written here.
unfoldable pub handle_sync_request :
    {W : Type 0} → (ℕ → Option Block) → SyncRequest → Node W → SyncAnswer
unfolding chain_from
handle_sync_request chain get_status n = status n.height (to_hex n.last_commit_hash)
handle_sync_request chain (get_blocks start end) n =
    blocks (chain_from chain (min end (start + 100) + 1 - start) start)
