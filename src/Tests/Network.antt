-- ===== src/Tests/Network.antt =====
-- Tests of the network and of the wiring, with a network that keeps what is published.
use bery_bc.Base.{ℕ, ◌≡◌, refl, Option, none, some, List, [], ◌∷◌}
use bery_bc.Bytes.{Bytes, write_be}
use bery_bc.Consensus.Start.{handle_sync_request}
use bery_bc.Core.Block.{Block}
use bery_bc.Core.Transaction
use bery_bc.Core.Transaction.Json.{TransactionJson, to_json}
use bery_bc.Crypto.Toy.{toy}
use bery_bc.Network.{Pubsub, published, handle_sync_protocol, broadcast_tx, publish_to, topic_tx}
use bery_bc.Launch.Gossip.{Relay, add_tx, left_by, on_network_tx, deliver}
use bery_bc.Launch.GossipLaws.{on_network_tx_once, broadcast_tx-deliver}
use bery_bc.Tests.Consensus.{node}
use bery_bc.Tests.Core.{small_block, coinbase_tx-IsPlain}
use bery_bc.Tests.Data.{coinbase_tx}
use bery_bc.Tests.Wire.{toy_codecs, transactions-IsCodec}

abbrev chain : ℕ → Option Block
chain height = some small_block

-- One peer, whose node serves the chain; what is published is kept.
abbrev toy_net : Pubsub
toy_net = record {
  Net = List Bytes;
  get_peers = λ net. (7 ∷ []) ∷ [];
  get_subscribers = λ net topic. (7 ∷ []) ∷ [];
  publish = λ topic buffer net. (buffer ∷ net, published);
  dial = λ peer buffer net. (
    net,
    some (handle_sync_protocol toy_codecs (λ r. handle_sync_request chain r node) (buffer ∷ [])),
  );
}

written : (j : TransactionJson) × (to_json toy coinbase_tx ≡ some j)
unfolding to_json Transaction.hash Transaction.get_bytes write_be
written = (_, refl)

abbrev relay : Relay (List Bytes)
relay = record { pool = []; net = some [] }

on_network_tx_once_example :
    on_network_tx toy_codecs toy toy_net none written.0
      (on_network_tx toy_codecs toy toy_net none written.0 relay)
    ≡ on_network_tx toy_codecs toy toy_net none written.0 relay
on_network_tx_once_example = on_network_tx_once toy_codecs toy toy_net none written.0 relay

broadcast_tx-deliver_example :
    (buffer : Bytes) × (broadcast_tx toy_codecs toy toy_net coinbase_tx (some [])
      ≡ publish_to toy_codecs toy toy_net topic_tx buffer [])
    × (deliver toy_codecs toy toy_net none topic_tx buffer relay
        ≡ left_by toy_codecs toy toy_net none relay
            (add_tx toy_codecs toy toy_net none coinbase_tx relay))
broadcast_tx-deliver_example =
    broadcast_tx-deliver toy_codecs toy toy_net none coinbase_tx written.0 [] relay
      transactions-IsCodec coinbase_tx-IsPlain written.1
