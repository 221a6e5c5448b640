-- ===== src/Launch/Gossip.antt =====
-- The listeners that `main` sets up: a transaction that the mempool takes goes to the network, and one
-- that comes from the network goes to the mempool.
use bery_bc.Base.{Bool, true, false, Option, none, some}
use bery_bc.Base.Throws.{◌>>=◌}
use bery_bc.Bytes.{Bytes, Text}
use bery_bc.Core.Transaction.{Transaction}
use bery_bc.Core.Transaction.Json.{TransactionJson, from_json}
use bery_bc.Crypto.{Crypto}
use bery_bc.Mempool.{Mempool, add}
use bery_bc.Network.{
  Pubsub, Codecs, Event, block_event, tx_event, vote_event, handle_message, broadcast_tx,
}
use bery_bc.State.Account.{Account}

-- The mempool, and the network if it is started.
pub record Relay (Net : Type 0) : Type 0 where
  pub pool : Mempool
  pub net : Option Net

module _ (k : Codecs) (c : Crypto) (p : Pubsub) (accounts : Option (Text → Option Account)) where
  -- `mempool.on('tx', ...)`; a rejection of the promise is not awaited.
  unfoldable pub on_mempool_tx : Transaction → Option p.Net → Option p.Net
  on_mempool_tx tx net = (broadcast_tx k c p tx net).0

  abbrev pub announced : Transaction → Relay p.Net → Bool × Mempool → Bool × Relay p.Net
  announced tx r (false, pool) = (false, record r { pool = pool })
  announced tx r (true, pool) = (true, record { pool = pool; net = on_mempool_tx tx r.net })

  -- `mempool.add`, with the event that it emits where it takes the transaction.
  unfoldable pub add_tx : Transaction → Relay p.Net → Option (Bool × Relay p.Net)
  unfolding on_mempool_tx
  add_tx tx r = do a ← add c accounts tx r.pool; some (announced tx r a)

  -- What a call of `add` that is caught leaves.
  abbrev pub left_by : Relay p.Net → Option (Bool × Relay p.Net) → Relay p.Net
  left_by r none = r
  left_by r (some (b, r')) = r'

  -- `network.on('tx', ...)`; a throw is logged.
  unfoldable pub on_network_tx : TransactionJson → Relay p.Net → Relay p.Net
  unfolding add_tx
  on_network_tx tx_data r = left_by r (from_json tx_data >>= λ tx. add_tx tx r)

  -- The events of the consensus do not reach the mempool here.
  abbrev pub on_event : Option Event → Relay p.Net → Relay p.Net
  on_event none r = r
  on_event (some (block_event j)) r = r
  on_event (some (vote_event v)) r = r
  on_event (some (tx_event j)) r = on_network_tx j r

  -- A message of the network.
  unfoldable pub deliver : Text → Bytes → Relay p.Net → Relay p.Net
  unfolding on_network_tx
  deliver topic buffer r = on_event (handle_message k topic buffer) r
