-- ===== src/Vm/Executor/Forgery.antt =====
-- A call of a contract runs whatever its signature.
use bery_bc.Base.{◌≡◌, refl, sym, ap, ◌∙◌, false, Option, none, some, same, inl, inr, Option-cases}
use bery_bc.Bytes.{Bytes}
use bery_bc.Crypto.{Crypto}
use bery_bc.State.Manager.{Trie, get_account}
use bery_bc.Core.Transaction.{Transaction, staking_address}
use bery_bc.Core.Transaction
use bery_bc.Vm.Executor.Types.{Env, Event, Outcome, EvmResult, EvmCall, with_hash}
use bery_bc.Vm.Executor.Evm.{call_target, execute_evm_call, after_call, charge_call}
use bery_bc.Vm.Executor.Defs.{process_tx, is_creation, code_of}

module _ (tr : Trie) (c : Crypto) (env : Env tr) where
  with_hash-state :
      (t : Transaction) (f : Bytes → Outcome) (d : tr.Db) → (with_hash tr c t f d).0 ≡ d
  unfolding with_hash
  with_hash-state t f d = elim (Option-cases (Transaction.hash c t)) [
    | inl e ↦ rw (e, with_hash)
    | inr (h, e) ↦ rw (e, with_hash)
  ]

  after_call_unsigned :
      (t : Transaction) (g : Option Bytes) (r : Option EvmResult) (d : tr.Db)
      → (after_call tr c env (record t { signature = g }) r d).0 ≡ (after_call tr c env t r d).0
  unfolding after_call charge_call
  after_call_unsigned t g none d = refl
  after_call_unsigned t g (some r) d = elim (Option-cases (charge_call tr c env t r d)) [
    | inl e ↦ rw (e, after_call)
    | inr (d', e) ↦ rw (e, after_call) (with_hash-state _ _ d' ∙ sym (with_hash-state _ _ d'))
  ]

  evm_call_state :
      (t : Transaction) (g : Option Bytes) (d : tr.Db)
      → (execute_evm_call tr c env (record t { signature = g }) d).0
        ≡ (execute_evm_call tr c env t d).0
  unfolding execute_evm_call
  evm_call_state t g d =
      let call : EvmCall = record {
        from = t.from;
        to = call_target t.to;
        payload = t.payload;
        value = t.value;
        gas = t.gas_limit;
      } in
      after_call_unsigned t g (env.evm_call call d).1 (env.evm_call call d).0

  -- A transaction to a known contract that is not the staking address is a call.
  abbrev pub IsCall : Transaction → tr.Db → Type 0
  IsCall t d =
      (is_creation t ≡ false)
      × (same t.to staking_address ≡ false)
      × ((code : Bytes) × (code_of tr c env (get_account tr d t.to) d ≡ some code))

  process_tx-call :
      (event : Event) (t : Transaction) (d : tr.Db)
      → IsCall t d
      → process_tx tr c env event t d ≡ some (execute_evm_call tr c env t d)
  unfolding process_tx
  process_tx-call event t d (call, user, (code, known)) = rw (call, known, user)

  is_creation-signature :
      (t : Transaction) (g : Option Bytes)
      → is_creation (record t { signature = g }) ≡ is_creation t
  unfolding is_creation
  is_creation-signature t g = refl

  -- The state that a call of a contract leaves does not depend on the signature of its transaction,
  -- also where there is none: a call is run, and charged to the account that it names as sender,
  -- without a check that the sender has signed it.
  pub evm_call_unsigned :
      (event : Event) (t : Transaction) (g : Option Bytes) (d : tr.Db)
      → IsCall t d
      → (d' : tr.Db) × (o o' : Outcome) × (process_tx tr c env event t d ≡ some (d', o))
        × (process_tx tr c env event (record t { signature = g }) d ≡ some (d', o'))
  evm_call_unsigned event t g d (call, user, known) = (
    (execute_evm_call tr c env t d).0,
    (execute_evm_call tr c env t d).1,
    (execute_evm_call tr c env (record t { signature = g }) d).1,
    process_tx-call event t d (call, user, known),
    process_tx-call event (record t { signature = g }) d
          (is_creation-signature t g ∙ call, user, known)
        ∙ ap (λ s. some (s, (execute_evm_call tr c env (record t { signature = g }) d).1))
            (evm_call_state t g d),
  )
