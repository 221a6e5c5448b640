-- ===== src/Network/Sync.antt =====
-- A request for blocks, over the network and back.
use bery_bc.Base.{◌≡◌, refl, some, [], ◌∷◌}
use bery_bc.Consensus.Node.{Node}
use bery_bc.Consensus.Start.{SyncRequest, SyncAnswer}
use bery_bc.Core.Block.{Block}
use bery_bc.Crypto.{Crypto}
use bery_bc.Network.Defs.{Pubsub, Codecs, IsCodec, handle_sync_protocol, first_answer}

module _ (k : Codecs) (c : Crypto) (p : Pubsub) (requests : IsCodec k.requests)
    (answers : IsCodec k.answers) where
  -- One request, and its answer.
  pub answer_read :
      (listener : SyncRequest → SyncAnswer) (request : SyncRequest)
      → first_answer k c p
          (some (handle_sync_protocol k listener (k.requests.stringify request ∷ [])))
        ≡ some (some (listener request))
  unfolding handle_sync_protocol
  answer_read listener request =
      rw
        (first_answer, requests.parse-stringify request, answers.parse-stringify (listener request))
        refl
