-- ===== src/Api/SubmitLaws.antt =====
-- What an answer with a hash promises.
use bery_bc.Base.{◌≡◌, refl, sym, ◌∙◌, ap, Bool, true, false, Option, none, some, [], not, inl, inr}
use bery_bc.Base.Int.{ℤ}
use bery_bc.Base.TextMap.{lookup, lookup-insert_self}
use bery_bc.Base.Throws.{by_test, by_option}
use bery_bc.Bytes.{Text, to_hex}
use bery_bc.Crypto.{Crypto}
use bery_bc.State.Account.{Account}
use bery_bc.Core.Transaction.{Transaction}
use bery_bc.Core.Transaction
use bery_bc.Mempool.{Mempool, add}
use bery_bc.Mempool.Admission.{add-cases, Admitted}
use bery_bc.Api.Fields.{Field, Reply, success, failure, ApiError, validate_tx_body}
use bery_bc.Api.Submit.{TxRequest, hash_reply, text_field, submit, send_tx, tx_of_body}

module _ (c : Crypto) (to_bn : Field → Option ℤ) (policy : Option (Text → Option Account)) where
  -- The transaction was admitted, and the pool has it under the hash of the answer.
  pub record Promised (answer : Text) (m m' : Mempool) : Type 0 where
    pub tx : Transaction
    pub admitted : Admitted c policy tx m m'
    pub stored : lookup answer m' ≡ some tx

  abbrev Honest : Mempool → Reply Text × Mempool → Type 0
  Honest m q = (answer : Text) (m' : Mempool) → q ≡ (success answer, m') → Promised answer m m'

  refused : (m m' : Mempool) (e : ApiError) → Honest m (failure e, m')
  refused m m' e answer k h = cc

  same_answer :
      {x y : Text} {k m' : Mempool}
      → ◌≡◌ {A = Reply Text × Mempool} (success x, k) (success y, m')
      → (x ≡ y) × (k ≡ m')
  same_answer h = (cc, cc)

  stored_at :
      (t : Transaction) (m k : Mempool) (a : Admitted c policy t m k)
      → lookup (to_hex a.hash) k ≡ some t
  stored_at t m k a =
      ap (lookup (to_hex a.hash)) a.inserted ∙ lookup-insert_self (to_hex a.hash) t a.room

  promise :
      (sends : Bool) (t : Transaction) (m k : Mempool)
      → Admitted c policy t m k
      → Honest m (hash_reply c to_bn policy sends (Transaction.hash c t), k)
  promise false t m k a = refused m k _
  promise true t m k a = rw (a.hash_eq) (λ answer m' h.
      let (text_eq, pool_eq) = same_answer h in
      rw (sym text_eq, sym pool_eq) (record { tx = t; admitted = a; stored = stored_at t m k a }))

  no_promise : {P : Type 0} → true ≡ false → P
  no_promise h = cc

  submit-Honest :
      (sends : Bool) (t : Transaction) (m : Mempool) → Honest m (submit c to_bn policy sends t m)
  unfolding submit
  submit-Honest sends t m = by_answer (add c policy t m) refl
    where
      by_answer :
          (o : Option (Bool × Mempool))
          → add c policy t m ≡ o
          → Honest m (submit c to_bn policy sends t m)
      by_answer none e = rw (e, submit) (refused m m _)
      by_answer (some (true, k)) e =
          rw (e, submit)
            (elim (add-cases c policy t m k true e) [
              | inl (said_no, kept) ↦ no_promise said_no
              | inr (said_yes, a) ↦ promise sends t m k a
            ])
      by_answer (some (false, k)) e = rw (e, submit) (refused m k _)

  -- If a request to send a transaction is answered with a hash, then the pool has admitted a verified
  -- transaction of a user, and holds it under this hash.
  pub send_tx-Promised :
      (r : TxRequest) (m m' : Mempool) (answer : Text)
      → send_tx c to_bn policy r m ≡ (success answer, m')
      → Promised answer m m'
  unfolding send_tx
  send_tx-Promised r m m' answer =
      by_option (Honest m) (validate_tx_body r.from (text_field r.to) r.signature)
        (λ fine.
          by_option (Honest m) r.to
            (λ missing.
              by_option (Honest m) (tx_of_body c to_bn [] r) (λ e. refused m m _)
                (λ t e. refused m m _))
            (λ to given.
              by_option (Honest m) (tx_of_body c to_bn to r) (λ e. refused m m _)
                (λ t e.
                  by_test (Honest m) (not (Transaction.verify c t)) (λ bad. refused m m _)
                    (λ good. submit-Honest r.sends t m))))
        (λ err e. refused m m _) answer m'
