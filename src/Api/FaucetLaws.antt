-- ===== src/Api/FaucetLaws.antt =====
-- The nonce of the faucet's transaction against the policy of the pool.
use bery_bc.Base.{
  ℕ, ◌≡◌, refl, sym, ◌∙◌, ap, Bool, true, false, Option, none, some, [], same, not, inl, inr, arith,
}
use bery_bc.Base.Int.{ℤ, pos, negsuc, ◌+ℤ◌, eqb_ℤ, pos-add}
use bery_bc.Base.TextMap.{lookup}
use bery_bc.Base.Throws.{◌>>=◌, >>=-eq-some, some-inj, by_test, by_option, throw_unless}
use bery_bc.Bytes.{Text}
use bery_bc.Bytes.Decimal.{of_decimal}
use bery_bc.Crypto.{Crypto, KeyPair}
use bery_bc.Crypto
use bery_bc.State.Account.{Account}
use bery_bc.Core.Transaction.{Transaction, new_transaction, get_bytes}
use bery_bc.Core.Transaction
use bery_bc.Mempool.{Mempool, add, to_number, nonce_accepted}
use bery_bc.Mempool.Admission.{add-cases}
use bery_bc.Api.Fields.{
  Reply, success, failure, ApiError, FaucetBody, validate_faucet_body, internal, pool_refused,
  cooldown, not_ready, disabled, unauthorized,
}
use bery_bc.Api.Faucet.{
  FaucetConfig, FaucetRequest, Server, token_accepted, is_cooling, or_amount, natural, faucet_tx,
  offer, serve, faucet,
}

pos_next : (n : ℕ) → eqb_ℤ (pos n) (pos n +ℤ pos 1) ≡ false
pos_next n = rw (pos-add n 1) (ground arith)

accepted-ne : true ≡ false → ⊥
accepted-ne h = cc

natural-eq : (a : ℤ) (n : ℕ) → natural a ≡ some n → a ≡ pos n
natural-eq (pos m) n h = ap pos (some-inj h)
natural-eq (negsuc m) n h = cc

module _ (c : Crypto) where
  sign-fields :
      (k : KeyPair) (t u : Transaction)
      → Transaction.sign c k t ≡ some u
      → (u.from ≡ t.from) × (u.nonce ≡ t.nonce)
  unfolding Transaction.sign
  sign-fields k t u h =
      let (x, a, h1) =
        >>=-eq-some (throw_unless (same (Crypto.get_address c k) t.from))
          (λ x.
            get_bytes t >>= λ m. Crypto.sign c k m >>= λ s. some (record t { signature = some s }))
          h in
      let (m, b, h2) =
        >>=-eq-some (get_bytes t)
          (λ m. Crypto.sign c k m >>= λ s. some (record t { signature = some s })) h1 in
      let (s, d, h3) =
        >>=-eq-some (Crypto.sign c k m) (λ s. some (record t { signature = some s })) h2 in
      (
        ap (λ (v : Transaction). v.from) (sym (some-inj h3)),
        ap (λ (v : Transaction). v.nonce) (sym (some-inj h3)),
      )

  module _ (get_account : Text → Option Account) where
    wallet_tx : KeyPair → FaucetBody → ℕ → ℤ → Transaction
    wallet_tx wallet body nonce value = new_transaction (record {
      from = Crypto.get_address c wallet;
      to = body.address;
      value = value;
      nonce = nonce;
      gas_limit = some 21000;
      gas_price = some (pos 1);
      payload = some [];
      signature = none;
      eth_hash = none;
    })

    own_nonce :
        (wallet : KeyPair) (body : FaucetBody) (t : Transaction)
        → faucet_tx c get_account wallet body ≡ some t
        → nonce_accepted (some get_account) t ≡ false
    unfolding faucet_tx wallet_tx new_transaction nonce_accepted
    own_nonce wallet body t h =
        let after_nonce : ℕ → Option Transaction = λ nonce.
          of_decimal (or_amount body.amount) >>= λ value.
          Transaction.sign c wallet (wallet_tx wallet body nonce value) in
        let (account, a, h1) =
          >>=-eq-some (get_account (Crypto.get_address c wallet))
            (λ account. to_number account.nonce >>= λ n. natural n >>= after_nonce) h in
        let (n, b, h2) =
          >>=-eq-some (to_number account.nonce) (λ n. natural n >>= after_nonce) h1 in
        let (nonce, d, h3) = >>=-eq-some (natural n) after_nonce h2 in
        let (value, e, h4) =
          >>=-eq-some (of_decimal (or_amount body.amount))
            (λ value. Transaction.sign c wallet (wallet_tx wallet body nonce value)) h3 in
        let (from, same_nonce) = sign-fields wallet (wallet_tx wallet body nonce value) t h4 in
        rw (from, nonce_accepted)
          (rw (a, nonce_accepted)
            (rw (b, nonce_accepted) (rw (same_nonce, natural-eq n nonce d) (pos_next nonce))))

    -- The answer is an error, and the node is as it was.
    abbrev Refused : Server → Reply Text × Server → Type 0
    Refused st r = (e : ApiError) × (r ≡ (failure e, st))

    offer-Refused :
        (r : FaucetRequest) (address : Text) (t : Transaction) (st : Server)
        → nonce_accepted (some get_account) t ≡ false
        → Refused st (offer c get_account (some get_account) r address t st)
    unfolding offer
    offer-Refused r address t st h = by_answer (add c (some get_account) t st.pool) refl
      where
        by_answer :
            (o : Option (Bool × Mempool))
            → add c (some get_account) t st.pool ≡ o
            → Refused st (offer c get_account (some get_account) r address t st)
        by_answer none e = rw (e, offer) (internal, refl)
        by_answer (some (b, pool)) e = elim (add-cases c (some get_account) t st.pool pool b e) [
          | inl (said_no, kept) ↦ rw (e, said_no, kept, offer) (pool_refused, refl)
          | inr (said_yes, admitted) ↦ absurd (accepted-ne (sym admitted.next_nonce ∙ h))
        ]

    serve-Refused :
        (consensus : Option KeyPair) (r : FaucetRequest) (body : FaucetBody) (st : Server)
        → Refused st (serve c get_account (some get_account) consensus r body st)
    unfolding serve
    serve-Refused consensus r body st =
        by_test (Refused st) (is_cooling (lookup body.address st.faucet_last) r.now)
          (λ e. (cooldown, refl))
          (λ e.
            by_option (Refused st) consensus (λ e. (not_ready, refl))
              (λ wallet e.
                by_option (Refused st) (faucet_tx c get_account wallet body) (λ e. (internal, refl))
                  (λ t e. offer-Refused r body.address t st (own_nonce wallet body t e))))

    -- Where the pool and the interface read the same accounts, every request to the faucet is answered
    -- with an error, and changes nothing.
    pub faucet_refuses :
        (conf : FaucetConfig) (consensus : Option KeyPair) (r : FaucetRequest) (st : Server)
        → (e : ApiError) × (faucet c get_account (some get_account) conf consensus r st
            ≡ (failure e, st))
    unfolding faucet
    faucet_refuses conf consensus r st =
        by_test (Refused st) (not conf.faucet_enabled) (λ e. (disabled, refl))
          (λ e.
            by_test (Refused st) (not (token_accepted conf.faucet_token r.token))
              (λ e. (unauthorized, refl)) (λ e. by_body (validate_faucet_body r.address r.amount)))
      where
        by_body :
            (v : Reply FaucetBody)
            → Refused st (elim v [
              | failure e ↦ (failure e, st)
              | success body ↦ serve c get_account (some get_account) consensus r body st
            ])
        by_body (failure e) = (e, refl)
        by_body (success body) = serve-Refused consensus r body st
