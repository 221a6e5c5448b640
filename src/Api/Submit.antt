-- ===== src/Api/Submit.antt =====
-- `POST /v1/tx/send`, and `POST /tx`, which is the same code.
use bery_bc.Base.{ℕ, Bool, true, false, Option, none, some, [], ◌∷◌, not, same, ◌==◌, if◌then◌else◌}
use bery_bc.Base.Int.{ℤ}
use bery_bc.Base.Throws.{◌>>=◌}
use bery_bc.Bytes.{Bytes, Text, to_hex, from_hex}
use bery_bc.Crypto.{Crypto}
use bery_bc.State.Account.{Account}
use bery_bc.Core.Transaction.{Transaction, new_transaction, system_sender}
use bery_bc.Core.Transaction
use bery_bc.Mempool.{Mempool, add}
use bery_bc.Api.Fields.{
  Field, absent, text, number, flag, compound, Reply, success, failure, given, validate_tx_body,
  bad_signature, ApiError, pool_refused, internal,
}

-- The body, and whether the network takes the transaction. The nonce is a number, the recipient and
-- the data are texts or missing, and the gas limit is what `parseInt` reads, if it is given.
pub record TxRequest : Type 0 where
  pub from : Field
  pub to : Option Text
  pub value : Field
  pub nonce : ℕ
  pub signature : Field
  pub gas_limit : Option ℕ
  pub gas_price : Field
  pub payload : Option Text
  pub sends : Bool

-- `gasPrice ? ... : undefined` and the like.
unfoldable pub truthy : Field → Bool
truthy absent = false
truthy (text []) = false
truthy (text (c ∷ cs)) = true
truthy (number n) = not (n == 0)
truthy (flag b) = b
truthy (compound t) = true

abbrev pub text_field : Option Text → Field
text_field none = absent
text_field (some t) = text t

-- `data ? Buffer.from(data, 'hex') : undefined`
abbrev payload_of : Option Text → Option Bytes
payload_of none = none
payload_of (some []) = none
payload_of (some (c ∷ cs)) = some (from_hex (c ∷ cs))

-- `new BN` on a field is the argument `to_bn`, `none` where it throws.
module _ (c : Crypto) (to_bn : Field → Option ℤ) where
  abbrev price_of : Field → Option (Option ℤ)
  price_of f = if truthy f then (to_bn f >>= λ p. some (some p)) else some none

  -- The transaction of a body with this recipient; `none` where the code throws.
  unfoldable pub tx_of_body : Text → TxRequest → Option Transaction
  unfolding truthy
  tx_of_body to r = do
    from ← given r.from
    signature ← given r.signature
    value ← to_bn r.value
    gas_price ← price_of r.gas_price
    some (
        new_transaction (record {
          from = from;
          to = to;
          value = value;
          nonce = r.nonce;
          gas_limit = r.gas_limit;
          gas_price = gas_price;
          payload = payload_of r.payload;
          signature = some (from_hex signature);
          eth_hash = none;
        }))

  module _ (policy : Option (Text → Option Account)) where
    abbrev pub hash_reply : Bool → Option Bytes → Reply Text
    hash_reply false h = failure internal
    hash_reply true none = failure internal
    hash_reply true (some h) = success (to_hex h)

    -- The answer of the pool.
    unfoldable pub submit : Bool → Transaction → Mempool → Reply Text × Mempool
    submit sends t m = elim (add c policy t m) [
      | none ↦ (failure internal, m)
      | some (true, m') ↦ (hash_reply sends (Transaction.hash c t), m')
      | some (false, m') ↦ (failure pool_refused, m')
    ]

    -- Without a recipient the bytes to sign cannot be built, which `verify` takes for a bad signature;
    -- it does not look at a transaction of the system, which the pool refuses.
    abbrev pub missing_to : Transaction → ApiError
    missing_to t = if same t.from system_sender then pool_refused else bad_signature

    -- The handler.
    unfoldable pub send_tx : TxRequest → Mempool → Reply Text × Mempool
    unfolding tx_of_body submit
    send_tx r m = elim (validate_tx_body r.from (text_field r.to) r.signature) [
      | some e ↦ (failure e, m)
      | none ↦ elim r.to [
        | none ↦ elim (tx_of_body [] r) [
          | none ↦ (failure internal, m)
          | some t ↦ (failure (missing_to t), m)
        ]
        | some to ↦ elim (tx_of_body to r) [
          | none ↦ (failure internal, m)
          | some t ↦
              if not (Transaction.verify c t)
              then (failure bad_signature, m)
              else submit r.sends t m
        ]
      ]
    ]
