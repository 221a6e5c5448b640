-- ===== src/Network/Defs.antt =====
-- The class `P2PNetwork`. libp2p is not under src/: it is the record `Pubsub`.
use bery_bc.Base.{
  ℕ, ◌≡◌, Bool, true, false, Option, none, some, List, [], ◌∷◌, length, same, ◌==◌, if◌then◌else◌,
}
use bery_bc.Bytes.{Bytes, Text}
use bery_bc.Consensus.Node.{Vote}
use bery_bc.Consensus.Start.{SyncRequest, SyncAnswer}
use bery_bc.Core.Block.{Block}
use bery_bc.Core.Block.Json.{BlockJson, to_json}
use bery_bc.Core.Transaction.{Transaction}
use bery_bc.Core.Transaction.Json.{TransactionJson}
use bery_bc.Core.Transaction.Json
use bery_bc.Crypto.{Crypto}

-- How a call of `publish` ends: without an exception, with the one that nobody subscribes, or with another.
pub data Publication : Type 0 where
  published no_peers failed : Publication

-- A started node. `dial` sends one message on a stream of the sync protocol, and gives the messages that
-- come back; `none` where it throws.
pub record Pubsub : Type 1 where
  pub Net : Type 0
  pub get_peers : Net → List Text
  pub get_subscribers : Net → Text → List Text
  pub publish : Text → Bytes → Net → Net × Publication
  pub dial : Text → Bytes → Net → Net × Option (List Bytes)

-- `JSON.stringify` and `JSON.parse` on the values of a type; `none` where the text is not JSON. A JSON
-- text of another form is outside of the model.
pub record Codec (A : Type 0) : Type 0 where
  pub stringify : A → Bytes
  pub parse : Bytes → Option A

pub record IsCodec {A : Type 0} (k : Codec A) : Type 0 where
  pub parse-stringify : (a : A) → k.parse (k.stringify a) ≡ some a

-- The blocks of an answer are decoded.
pub record Codecs : Type 0 where
  pub blocks : Codec BlockJson
  pub transactions : Codec TransactionJson
  pub votes : Codec Vote
  pub requests : Codec SyncRequest
  pub answers : Codec SyncAnswer

-- 'block'
abbrev pub topic_block : Text
topic_block = b'b' ∷ b'l' ∷ b'o' ∷ b'c' ∷ b'k' ∷ []

-- 'tx'
abbrev pub topic_tx : Text
topic_tx = b't' ∷ b'x' ∷ []

-- 'consensus'
abbrev pub topic_consensus : Text
topic_consensus = b'c' ∷ b'o' ∷ b'n' ∷ b's' ∷ b'e' ∷ b'n' ∷ b's' ∷ b'u' ∷ b's' ∷ []

-- What the class emits.
pub data Event : Type 0 where
  block_event : BlockJson → Event
  tx_event : TransactionJson → Event
  vote_event : Vote → Event

module _ (k : Codecs) where
  abbrev emitted : {A : Type 0} → (A → Event) → Option A → Option Event
  emitted event none = none
  emitted event (some a) = some (event a)

  -- The listener of pubsub messages; a message that does not parse is logged only.
  unfoldable pub handle_message : Text → Bytes → Option Event
  handle_message topic buffer =
      if same topic topic_block
      then emitted block_event (k.blocks.parse buffer)
      else if same topic topic_tx
      then emitted tx_event (k.transactions.parse buffer)
      else if same topic topic_consensus
      then emitted vote_event (k.votes.parse buffer)
      else none

  -- `handleSyncProtocol`: the messages that go back, where the listener answers each request before
  -- the next message is read; a message that does not parse ends the loop.
  unfoldable pub handle_sync_protocol : (SyncRequest → SyncAnswer) → List Bytes → List Bytes
  handle_sync_protocol listener [] = []
  handle_sync_protocol listener (msg ∷ msgs) =
      let rest = handle_sync_protocol listener msgs in
      elim (k.requests.parse msg) [
        | none ↦ []
        | some request ↦ k.answers.stringify (listener request) ∷ rest
      ]

  module _ (c : Crypto) (p : Pubsub) where
    open p use {Net, get_peers, get_subscribers, publish, dial}

    -- `getTopicPeers`
    unfoldable pub get_topic_peers : Text → Option Net → ℕ
    get_topic_peers topic none = 0
    get_topic_peers topic (some net) = length (get_subscribers net topic)

    -- `getPeers`
    unfoldable pub peers_of : Option Net → List Text
    peers_of none = []
    peers_of (some net) = get_peers net

    abbrev settled : Net × Publication → Option Net × Bool
    settled (net, published) = (some net, true)
    settled (net, no_peers) = (some net, true)
    settled (net, failed) = (some net, false)

    -- The end that the three broadcasts share; false for a rejection.
    unfoldable pub publish_to : Text → Bytes → Net → Option Net × Bool
    publish_to topic buffer net =
        if length (get_subscribers net topic) == 0
        then (some net, true)
        else settled (publish topic buffer net)

    unfoldable pub broadcast_block : Block → Option Net → Option Net × Bool
    unfolding publish_to
    broadcast_block block none = (none, true)
    broadcast_block block (some net) = elim (to_json c block) [
      | none ↦ (some net, false)
      | some j ↦ publish_to topic_block (k.blocks.stringify j) net
    ]

    unfoldable pub broadcast_tx : Transaction → Option Net → Option Net × Bool
    unfolding publish_to
    broadcast_tx tx none = (none, true)
    broadcast_tx tx (some net) = elim (Json.to_json c tx) [
      | none ↦ (some net, false)
      | some j ↦ publish_to topic_tx (k.transactions.stringify j) net
    ]

    unfoldable pub broadcast_vote : Vote → Option Net → Option Net × Bool
    unfolding publish_to
    broadcast_vote vote none = (none, true)
    broadcast_vote vote (some net) = publish_to topic_consensus (k.votes.stringify vote) net

    unfoldable pub has_peer : Text → List Text → Bool
    has_peer peer [] = false
    has_peer peer (q ∷ qs) = if same q peer then true else has_peer peer qs

    -- The first message of the stream; `null` where there is none, and a throw where it does not parse.
    abbrev pub first_answer : Option (List Bytes) → Option (Option SyncAnswer)
    first_answer none = none
    first_answer (some []) = some none
    first_answer (some (msg ∷ msgs)) = elim (k.answers.parse msg) [
      | none ↦ none
      | some a ↦ some (some a)
    ]

    -- The outer `none` is a throw.
    unfoldable pub send_sync_request :
        Text → SyncRequest → Option Net → Option Net × Option (Option SyncAnswer)
    unfolding has_peer
    send_sync_request peer request none = (none, none)
    send_sync_request peer request (some net) =
        if has_peer peer (get_peers net)
        then (
          some (dial peer (k.requests.stringify request) net).0,
          first_answer (dial peer (k.requests.stringify request) net).1,
        )
        else (some net, none)
