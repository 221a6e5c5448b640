-- ===== src/Consensus/System.antt =====
-- What happens to a node: messages from the network, the timer, and the calls that go on later. The
-- next round of a timeout and the clock of a proposal come with the event.
use bery_bc.Base.{ℕ, List, [], ◌∷◌}
use bery_bc.Base.Int.{ℤ}
use bery_bc.Core.Transaction.{Transaction}
use bery_bc.Core.Block.Json.{BlockJson}
use bery_bc.Consensus.Node.{Vote, Ledger, Task, propose_block, own_vote, Node}
use bery_bc.Consensus.Round.{Setup}
use bery_bc.Consensus.Quorum.{handle_vote, handle_timeout}
use bery_bc.Consensus.Proposal.{handle_block}
use bery_bc.Consensus.Proposal

pub data Event : Type 0 where
  block_received : BlockJson → Event
  vote_received : Vote → Event
  timer_fired : Event
  task_resumed : ℤ → List Transaction → ℕ → Event

module _ (s : Setup) (l : Ledger) where
  open l use {World}

  -- The oldest call that was not awaited goes on, with the reward, the transactions of the pool and
  -- the time that it reads.
  unfoldable pub resume : ℤ → List Transaction → ℕ → List Task → Node World → Node World
  resume reward pool timestamp [] n = n
  resume reward pool timestamp (propose_block ∷ ts) n =
      Proposal.propose_block s l reward pool timestamp (record n { tasks = ts })
  resume reward pool timestamp (own_vote v ∷ ts) n = handle_vote s l v (record n { tasks = ts })

  unfoldable pub step : Event → Node World → Node World
  unfolding resume
  step (block_received j) n = handle_block s l j n
  step (vote_received v) n = handle_vote s l v n
  step timer_fired n = handle_timeout s l n
  step (task_resumed reward pool timestamp) n = resume reward pool timestamp n.tasks n

  unfoldable pub run : List Event → Node World → Node World
  unfolding step
  run [] n = n
  run (e ∷ es) n = run es (step e n)
