-- ===== src/Consensus/Node.antt =====
-- The state of `BFTConsensus`, what it sends, and the ledger that it drives. The state manager, the
-- executor and the database are the record `Ledger`.
use bery_bc.Base.{
  ℕ, ◌+◌, ◌*◌, ◌/◌, ◌%◌, Bool, true, false, Option, none, some, List, [], ◌∷◌, ◌++◌, length,
  get_elem?, same, ◌==◌, ◌&&◌, if◌then◌else◌,
}
use bery_bc.Base.Int.{ℤ}
use bery_bc.Base.TextMap.{TextMap}
use bery_bc.Bytes.{Bytes, Text}
use bery_bc.Core.Transaction.{Transaction}
use bery_bc.Core.Block.{Block}
use bery_bc.Vm.Executor.{Receipt}

pub record Validator : Type 0 where
  pub public_key : Text
  pub power : ℕ

pub data VoteType : Type 0 where
  prevote precommit : VoteType

-- `block_hash` is absent for nil.
pub record Vote : Type 0 where
  pub height : ℕ
  pub round : ℕ
  pub type : VoteType
  pub block_hash : Option Text
  pub validator : Text
  pub signature : Text

pub data Phase : Type 0 where
  propose prevoting precommitting committed : Phase

-- What `executeBlock` returns.
pub record Executed : Type 0 where
  pub valid_txs : List Transaction
  pub receipts : List Receipt
  pub total_fees : ℤ

-- The state manager and the executor. An execution that throws leaves a state too; `none` beside
-- `commit`, `revert`, `credit` and `stakers` is a throw.
pub record Ledger : Type 1 where
  pub World : Type 0
  pub root : World → Bytes
  pub checkpoint : World → World
  pub commit : World → Option World
  pub revert : World → Option World
  pub execute : List Transaction → World → World × Option Executed
  pub credit : Text → ℤ → World → Option World
  pub stakers : World → Option (List Text)
  pub stake_of : World → Text → ℤ

-- What leaves the node: messages to the network, writes to the block store, removals from the
-- mempool, the timer, and the event for subscribers. The timer's time is the base timeout times
-- 1.2 to the power of the round.
pub data Effect : Type 0 where
  send_vote : Vote → Effect
  send_block : Block → Effect
  save_block : Block → Effect
  save_receipts : ℕ → List Receipt → Effect
  save_slashed : List Text → Effect
  remove_tx : Transaction → Effect
  set_timer : ℕ → Effect
  emit_committed : Block → Effect

-- A call that is not awaited and goes on after the present handler.
pub data Task : Type 0 where
  propose_block : Task
  own_vote : Vote → Task

pub record VoteKey : Type 0 where
  pub height : ℕ
  pub round : ℕ
  pub type : VoteType

abbrev pub Buckets : Type 0
Buckets = List (VoteKey × List Vote)

pub record Node (W : Type 0) : Type 0 where
  pub height : ℕ
  pub round : ℕ
  pub step : Phase
  pub locked_block : Option Block
  pub last_commit_hash : Bytes
  pub stopped : Bool
  pub votes : Buckets
  pub pending_blocks : TextMap Block
  pub slashed_validators : List Text
  pub validators : List Validator
  pub world : W
  pub effects : List Effect
  pub tasks : List Task

abbrev pub same_type : VoteType → VoteType → Bool
same_type prevote prevote = true
same_type prevote precommit = false
same_type precommit prevote = false
same_type precommit precommit = true

abbrev pub same_key : VoteKey → VoteKey → Bool
same_key a b = (a.height == b.height) && (a.round == b.round) && same_type a.type b.type

abbrev pub same_hash : Option Text → Option Text → Bool
same_hash none none = true
same_hash none (some b) = false
same_hash (some a) none = false
same_hash (some a) (some b) = same a b

-- `votes.get(key) || []`
unfoldable pub bucket : VoteKey → Buckets → List Vote
bucket k [] = []
bucket k ((j, vs) ∷ m) = if same_key k j then vs else bucket k m

-- `votes.push(vote)` on the bucket of a key, which is made if it is missing.
unfoldable pub push_vote : VoteKey → Vote → Buckets → Buckets
push_vote k v [] = (k, v ∷ []) ∷ []
push_vote k v ((j, vs) ∷ m) =
    if same_key k j then (j, vs ++ v ∷ []) ∷ m else (j, vs) ∷ push_vote k v m

-- `votes.find(v => v.validator === validator)`
unfoldable pub find_vote : Text → List Vote → Option Vote
find_vote a [] = none
find_vote a (v ∷ vs) = if same v.validator a then some v else find_vote a vs

unfoldable pub has_slashed : Text → List Text → Bool
has_slashed a [] = false
has_slashed a (x ∷ xs) = if same a x then true else has_slashed a xs

-- `validators.reduce((acc, v) => acc + v.power, 0)`
unfoldable pub total_power : List Validator → ℕ
total_power [] = 0
total_power (v ∷ vs) = v.power + total_power vs

-- `getQuorum`
unfoldable pub get_quorum : List Validator → ℕ
unfolding total_power
get_quorum vs = total_power vs * 2 / 3 + 1

-- `getProposer`; absent where there is no validator.
unfoldable pub get_proposer : List Validator → ℕ → ℕ → Option Validator
get_proposer vs height round = get_elem? vs ((height + round) % length vs)

abbrev pub emit : {W : Type 0} → Effect → Node W → Node W
emit e n = record n { effects = n.effects ++ e ∷ [] }
