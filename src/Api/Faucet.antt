-- ===== src/Api/Faucet.antt =====
-- `POST /v1/faucet`, and `POST /faucet`, which is the same code with another text in its answer.
use bery_bc.Base.{
  ℕ, ◌+◌, ◌*◌, Bool, true, false, Option, none, some, [], ◌∷◌, same, not, ltb, ◌==◌, ◌&&◌,
  if◌then◌else◌,
}
use bery_bc.Base.Int.{ℤ, pos, negsuc}
use bery_bc.Base.TextMap.{TextMap, lookup, insert}
use bery_bc.Base.Throws.{◌>>=◌}
use bery_bc.Bytes.{Text, to_hex}
use bery_bc.Bytes.Decimal.{of_decimal}
use bery_bc.Crypto.{Crypto, KeyPair}
use bery_bc.Crypto
use bery_bc.State.Account.{Account}
use bery_bc.Core.Transaction.{Transaction, new_transaction}
use bery_bc.Core.Transaction
use bery_bc.Mempool.{Mempool, add, to_number}
use bery_bc.Api.Fields.{
  Field, Reply, success, failure, FaucetBody, validate_faucet_body, default_amount, disabled,
  unauthorized, cooldown, not_ready, pool_refused, internal,
}

-- `config.api`, with `''` for no token.
pub record FaucetConfig : Type 0 where
  pub faucet_enabled : Bool
  pub faucet_token : Text

-- The pool, and the times in milliseconds at which addresses were last served.
pub record Server : Type 0 where
  pub pool : Mempool
  pub faucet_last : TextMap ℕ

-- The header of the token, the two fields of the body, the times of the two readings of the clock
-- and whether the network takes the transaction. A throw of the network is a false.
pub record FaucetRequest : Type 0 where
  pub token : Option Text
  pub address : Field
  pub amount : Field
  pub now : ℕ
  pub later : ℕ
  pub sends : Bool

-- `FAUCET_ADDRESS_COOLDOWN_MS`
abbrev pub cooldown_ms : ℕ
cooldown_ms = 60 * 60 * 1000

-- `faucetToken && token !== faucetToken`, negated.
unfoldable pub token_accepted : Text → Option Text → Bool
token_accepted [] token = true
token_accepted (x ∷ xs) none = false
token_accepted (x ∷ xs) (some t) = same t (x ∷ xs)

-- `last && now - last < FAUCET_ADDRESS_COOLDOWN_MS`
unfoldable pub is_cooling : Option ℕ → ℕ → Bool
is_cooling none now = false
is_cooling (some last) now = not (last == 0) && ltb now (last + cooldown_ms)

-- `amount || '1000000000000000000'`
abbrev pub or_amount : Text → Text
or_amount [] = default_amount
or_amount (c ∷ cs) = c ∷ cs

-- A number that `sign` can write.
abbrev pub natural : ℤ → Option ℕ
natural (pos n) = some n
natural (negsuc n) = none

module _ (c : Crypto) (get_account : Text → Option Account) where
  -- The signed transaction; `none` where the account cannot be read, its nonce is no number, or
  -- `sign` throws.
  unfoldable pub faucet_tx : KeyPair → FaucetBody → Option Transaction
  unfolding to_number
  faucet_tx wallet body = do
    account ← get_account (Crypto.get_address c wallet)
    n ← to_number account.nonce
    nonce ← natural n
    value ← of_decimal (or_amount body.amount)
    Transaction.sign c wallet (
        new_transaction (record {
          from = Crypto.get_address c wallet;
          to = body.address;
          value = value;
          nonce = nonce;
          gas_limit = some 21000;
          gas_price = some (pos 1);
          payload = some [];
          signature = none;
          eth_hash = none;
        }))

  module _ (policy : Option (Text → Option Account)) where
    -- After the transaction entered the pool.
    unfoldable pub announce : FaucetRequest → Text → Transaction → Server → Reply Text × Server
    announce r address t st =
        if r.sends
        then elim (Transaction.hash c t) [
          | none ↦
              (failure internal, record st { faucet_last = insert address r.later st.faucet_last })
          | some h ↦ (
            success (to_hex h),
            record st { faucet_last = insert address r.later st.faucet_last },
          )
        ]
        else (failure internal, st)

    -- The answer of the pool.
    unfoldable pub offer : FaucetRequest → Text → Transaction → Server → Reply Text × Server
    unfolding announce
    offer r address t st = elim (add c policy t st.pool) [
      | none ↦ (failure internal, st)
      | some (true, pool) ↦ announce r address t (record st { pool = pool })
      | some (false, pool) ↦ (failure pool_refused, record st { pool = pool })
    ]

    -- From the cooldown on.
    unfoldable pub serve :
        Option KeyPair → FaucetRequest → FaucetBody → Server → Reply Text × Server
    unfolding is_cooling faucet_tx offer
    serve consensus r body st =
        if is_cooling (lookup body.address st.faucet_last) r.now
        then (failure cooldown, st)
        else elim consensus [
          | none ↦ (failure not_ready, st)
          | some wallet ↦ elim (faucet_tx wallet body) [
            | none ↦ (failure internal, st)
            | some t ↦ offer r body.address t st
          ]
        ]

    -- The handler; `consensus` is the key pair of the node, if it has a consensus.
    unfoldable pub faucet :
        FaucetConfig → Option KeyPair → FaucetRequest → Server → Reply Text × Server
    unfolding token_accepted validate_faucet_body serve
    faucet conf consensus r st =
        if not conf.faucet_enabled
        then (failure disabled, st)
        else if not (token_accepted conf.faucet_token r.token)
        then (failure unauthorized, st)
        else elim (validate_faucet_body r.address r.amount) [
          | failure e ↦ (failure e, st)
          | success body ↦ serve consensus r body st
        ]
