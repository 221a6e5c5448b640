-- ===== src/Launch/GossipLaws.antt =====
-- A transaction on its way through the network.
use bery_bc.Base.{
  ◌≡◌, refl, sym, ◌∙◌, ap, Bool, true, false, Option, none, some, inl, inr, same, arith,
}
use bery_bc.Base.TextMap.{contains-insert_self}
use bery_bc.Base.Throws.{◌>>=◌}
use bery_bc.Bytes.{Bytes, Text, to_hex}
use bery_bc.Core.Transaction.{Transaction}
use bery_bc.Core.Transaction.Json.{TransactionJson, IsPlain, to_json, from_json, from_json-to_json}
use bery_bc.Crypto.{Crypto}
use bery_bc.Mempool.{Mempool, add}
use bery_bc.Mempool.Admission.{add-cases}
use bery_bc.Network.{
  Pubsub, Codecs, IsCodec, tx_event, handle_message, broadcast_tx, publish_to, topic_tx,
}
use bery_bc.State.Account.{Account}
use bery_bc.Launch.Gossip.{Relay, add_tx, announced, left_by, on_network_tx, deliver}

module _ (c : Crypto) (accounts : Option (Text → Option Account)) where
  -- A pool that has taken a transaction refuses it.
  add_again :
      (t : Transaction) (m m' : Mempool)
      → add c accounts t m ≡ some (true, m')
      → add c accounts t m' ≡ some (false, m')
  unfolding add
  add_again t m m' e = elim (add-cases c accounts t m m' true e) [
    | inl (wrong, _) ↦ absurd (ground arith)
    | inr (_, a) ↦
        rw
          (
            a.verified,
            a.not_system,
            a.next_nonce,
            a.hash_eq,
            a.inserted,
            contains-insert_self (to_hex a.hash) t a.room,
          )
          refl
  ]

  add_refused : (t : Transaction) (m m' : Mempool) → add c accounts t m ≡ some (false, m') → m' ≡ m
  add_refused t m m' e = elim (add-cases c accounts t m m' false e) [
    | inl (_, same_pool) ↦ same_pool
    | inr (wrong, _) ↦ absurd (ground arith)
  ]

module _ (k : Codecs) (c : Crypto) (p : Pubsub) (accounts : Option (Text → Option Account)) where
  abbrev step : Transaction → Relay p.Net → Relay p.Net
  step t r = left_by k c p accounts r (add_tx k c p accounts t r)

  step-none : (t : Transaction) (r : Relay p.Net) → add c accounts t r.pool ≡ none → step t r ≡ r
  unfolding add_tx
  step-none t r e = rw (e) refl

  step-some :
      (t : Transaction) (r : Relay p.Net) (a : Bool × Mempool)
      → add c accounts t r.pool ≡ some a
      → step t r ≡ (announced k c p accounts t r a).1
  unfolding add_tx
  step-some t r a e = rw (e) refl

  step_refused :
      (t : Transaction) (r : Relay p.Net) (m' : Mempool)
      → add c accounts t r.pool ≡ some (false, m')
      → step t r ≡ r
  step_refused t r m' e =
      step-some t r (false, m') e
      ∙ ap (λ m. record r { pool = m }) (add_refused c accounts t r.pool m' e)

  step_twice : (t : Transaction) (r : Relay p.Net) → step t (step t r) ≡ step t r
  step_twice t r = by_add (add c accounts t r.pool) refl
    where
      by_add :
          (o : Option (Bool × Mempool)) → add c accounts t r.pool ≡ o → step t (step t r) ≡ step t r
      by_add none e = ap (step t) (step-none t r e)
      by_add (some (false, m')) e = ap (step t) (step_refused t r m' e)
      by_add (some (true, m')) e =
          let h = step-some t r (true, m') e in
          ap (step t) h ∙ step_refused t _ m' (add_again c accounts t r.pool m' e) ∙ sym h

  -- A transaction that comes from the network once more, right after the first time, changes nothing: it
  -- is neither put into the pool nor sent on again, whether it was taken the first time, refused, or made
  -- the code throw.
  pub on_network_tx_once :
      (j : TransactionJson) (r : Relay p.Net)
      → on_network_tx k c p accounts j (on_network_tx k c p accounts j r)
        ≡ on_network_tx k c p accounts j r
  unfolding on_network_tx
  on_network_tx_once j r = by_json (from_json j)
    where
      received : Option Transaction → Relay p.Net → Relay p.Net
      received o r = left_by k c p accounts r (o >>= λ tx. add_tx k c p accounts tx r)

      by_json : (o : Option Transaction) → received o (received o r) ≡ received o r
      by_json none = refl
      by_json (some t) = step_twice t r

  handle_message_tx :
      (j : TransactionJson)
      → IsCodec k.transactions
      → handle_message k topic_tx (k.transactions.stringify j) ≡ some (tx_event j)
  unfolding handle_message same
  handle_message_tx j codec = rw (codec.parse-stringify j) refl

  -- What a node publishes of a plain transaction, and what a node that gets this message does: it adds
  -- the transaction itself to its pool, and sends it on if it takes it.
  pub broadcast_tx-deliver :
      (t : Transaction) (j : TransactionJson) (net : p.Net) (r : Relay p.Net)
      → IsCodec k.transactions
      → IsPlain t
      → to_json c t ≡ some j
      → (buffer : Bytes) × (broadcast_tx k c p t (some net) ≡ publish_to k c p topic_tx buffer net)
        × (deliver k c p accounts topic_tx buffer r
            ≡ left_by k c p accounts r (add_tx k c p accounts t r))
  unfolding deliver on_network_tx broadcast_tx publish_to
  broadcast_tx-deliver t j net r codec plain written = (
    k.transactions.stringify j,
    rw (broadcast_tx, written) refl,
    rw (handle_message_tx j codec, from_json-to_json c t j plain written) refl,
  )
