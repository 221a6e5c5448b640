-- ===== src/Evm/Frame.antt =====
-- A call of the EVM and the accounts that are not part of it.
use bery_bc.Base.{ℕ, ◌≡◌, refl, ◌∙◌, ap, Bool, true, false, Option, none, some, same}
use bery_bc.Base.Throws.{◌>>=◌, by_option}
use bery_bc.Bytes.{Bytes, Text, from_hex}
use bery_bc.Core.Transaction.{Transaction}
use bery_bc.Core.Transaction
use bery_bc.Crypto.{Crypto}
use bery_bc.State.Manager.{Trie, IsLawful, get_account}
use bery_bc.Storage.Bloom.{drop_0x}
use bery_bc.Vm.Executor.{
  call_target, charge_call, after_call, execute_evm_call, EvmResult, Env, Outcome, with_hash,
}
use bery_bc.Evm.Types.{Machine, MachineResult, CallParams, caller_of}
use bery_bc.Evm.Defs.{
  prepare, run_of, and_persist, answer_of, persist_vm_state, evm_call_with_persist, params_of,
  machine_env,
}
use bery_bc.Evm.Writes.{IsSeparate, put_account-Keeps, persist_account-Keeps}

module _ (tr : Trie) (law : IsLawful tr) (apart : IsSeparate tr) (c : Crypto) (m : Machine)
    (x : Bytes) where
  abbrev Stays : tr.Db → tr.Db → Type 0
  Stays d d' = tr.get d' x ≡ tr.get d x

  and_persist-Stays :
      (vm : m.Vm) (address : Text) (d : tr.Db) (r : tr.Db × Bool)
      → same x (from_hex address) ≡ false
      → Stays d r.0
      → Stays d (and_persist tr c m vm address r).0
  and_persist-Stays vm address d (d1, false) other h = h
  and_persist-Stays vm address d (d1, true) other h =
      persist_account-Keeps tr law apart x c m address other vm d1 ∙ h

  answer_of-Stays :
      (d : tr.Db) (r : MachineResult) (p : tr.Db × Bool)
      → Stays d p.0
      → Stays d (answer_of tr c m r p).0
  answer_of-Stays d r (d1, false) h = h
  answer_of-Stays d r (d1, true) h = h

  module _ (from to : Text) (not_from : same x (from_hex from) ≡ false)
      (not_to : same x (from_hex to) ≡ false) where
    persist_vm_state-Stays :
        (vm : m.Vm) (d : tr.Db) → Stays d (persist_vm_state tr c m vm from to d).0
    unfolding persist_vm_state
    persist_vm_state-Stays vm d =
        and_persist-Stays vm to d _ not_to
          (persist_account-Keeps tr law apart x c m from not_from vm d)

  evm_call_with_persist-Stays :
      (chain_id : ℕ) (p : CallParams) (d : tr.Db)
      → same x (from_hex (caller_of p.from)) ≡ false
      → same x (from_hex (drop_0x p.to)) ≡ false
      → Stays d (evm_call_with_persist tr c m chain_id p d).0
  unfolding evm_call_with_persist
  evm_call_with_persist-Stays chain_id p d not_from not_to =
      by_option (λ (s : tr.Db × Option EvmResult). Stays d s.0)
        (prepare tr c m chain_id (drop_0x p.to) (caller_of p.from) d
          >>= m.run_call (run_of tr c m p))
        (λ e. refl)
        (λ o e.
          answer_of-Stays d o.1 _
            (persist_vm_state-Stays (caller_of p.from) (drop_0x p.to) not_from not_to o.0 d))

  charge_call-Stays :
      (env : Env tr) (t : Transaction) (r : EvmResult) (d d' : tr.Db)
      → same x (from_hex t.from) ≡ false
      → charge_call tr c env t r d ≡ some d'
      → Stays d d'
  unfolding charge_call
  charge_call-Stays env t r d d' other e = put_account-Keeps tr law apart x t.from _ d d' other e

  with_hash-Stays :
      (t : Transaction) (outcome : Bytes → Outcome) (d : tr.Db) → (with_hash tr c t outcome d).0 ≡ d
  unfolding with_hash
  with_hash-Stays t outcome d =
      by_option (λ (s : tr.Db × Outcome). s.0 ≡ d) (Transaction.hash c t) (λ e. refl) (λ h e. refl)

  after_call-Stays :
      (env : Env tr) (t : Transaction) (o : Option EvmResult) (d : tr.Db)
      → same x (from_hex t.from) ≡ false
      → Stays d (after_call tr c env t o d).0
  unfolding after_call
  after_call-Stays env t none d other = refl
  after_call-Stays env t (some r) d other =
      by_option (λ (s : tr.Db × Outcome). Stays d s.0) (charge_call tr c env t r d) (λ e. refl)
        (λ d' e.
          ap (λ y. tr.get y x) (with_hash-Stays t _ d') ∙ charge_call-Stays env t r d d' other e)

get_account-Stays :
    (tr : Trie) (address : Text) (d d' : tr.Db)
    → tr.get d' (from_hex address) ≡ tr.get d (from_hex address)
    → get_account tr d' address ≡ get_account tr d address
unfolding get_account
get_account-Stays tr address d d' e = rw (get_account, e) refl

-- A call that the executor makes through the adapter changes no account but those at the addresses of
-- the sender and of the target of the call, whatever the VM and whether the call throws or not; the
-- writes of code and of contract storage are taken to be apart from the account trie.
pub execute_evm_call-frame :
    (tr : Trie) (c : Crypto) (m : Machine) (env : Env tr) (chain_id : ℕ) (t : Transaction)
    (address : Text) (d : tr.Db)
    → IsLawful tr
    → IsSeparate tr
    → same (from_hex address) (from_hex t.from) ≡ false
    → same (from_hex address) (from_hex (drop_0x (call_target t.to))) ≡ false
    → get_account tr (execute_evm_call tr c (machine_env tr c m chain_id env) t d).0 address
      ≡ get_account tr d address
unfolding execute_evm_call caller_of drop_0x
execute_evm_call-frame tr c m env chain_id t address d law apart not_from not_to =
    let x = from_hex address in
    let p = params_of tr c m (record {
      from = t.from;
      to = call_target t.to;
      payload = t.payload;
      value = t.value;
      gas = t.gas_limit;
    }) in
    let call = evm_call_with_persist tr c m chain_id p d in
    get_account-Stays tr address d
      (after_call tr c (machine_env tr c m chain_id env) t call.1 call.0).0
      (after_call-Stays tr law apart c m x (machine_env tr c m chain_id env) t call.1 call.0
          not_from
        ∙ evm_call_with_persist-Stays tr law apart c m x chain_id p d not_from not_to)
