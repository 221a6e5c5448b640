-- ===== src/Evm/Defs.antt =====
-- What the VM is given, its calls, and what is written back.
use bery_bc.Base.{
  ℕ, Bool, true, false, Option, none, some, [], ◌∷◌, ◌++◌, length, map, same, not, ltb, ◌==◌,
  if◌then◌else◌,
}
use bery_bc.Base.Int.{pos}
use bery_bc.Base.TextMap.{TextMap}
use bery_bc.Base.Throws.{◌>>=◌}
use bery_bc.Bytes.{Bytes, Text, from_hex, to_hex, to_string}
use bery_bc.Crypto.{Crypto}
use bery_bc.State.Account.{Account, zero_hash}
use bery_bc.State.Manager.{
  Trie, get_account, put_account, put_code, get_code, put_contract_storage, dump_contract_storage,
}
use bery_bc.Storage.Bloom.{drop_0x}
use bery_bc.Storage.Logs.{ox}
use bery_bc.Vm.Executor.{EvmResult, EvmCall, Env}
use bery_bc.Evm.Types.{MachineRun, MachineResult, Machine, CallParams, caller_of, log_of}

module _ (tr : Trie) (c : Crypto) (m : Machine) where
  open m use {
    Vm, create_vm, is_address, put_vm_account, get_vm_account, put_vm_code, get_vm_code,
    put_vm_storage, dump_vm_storage, run_call, run_code,
  }

  -- The loop over the storage of an account.
  unfoldable pub hydrate_storage : Text → TextMap Text → Vm → Option Vm
  hydrate_storage address [] vm = some vm
  hydrate_storage address ((key, value) ∷ l) vm = do
    vm1 ← put_vm_storage address (from_hex key) (from_hex value) vm
    hydrate_storage address l vm1

  -- The code of an account, if it is a contract whose code is known.
  unfoldable pub hydrate_code : Text → Account → tr.Db → Vm → Vm
  hydrate_code address a d vm =
      if same a.code_hash zero_hash
      then vm
      else elim (get_code tr d a.code_hash) [ none ↦ vm | some code ↦ put_vm_code address code vm ]

  unfoldable pub hydrate_account : Text → tr.Db → Vm → Option Vm
  unfolding hydrate_code hydrate_storage
  hydrate_account address d vm =
      let a = get_account tr d address in
      let vm1 = put_vm_account address (record { balance = a.balance; nonce = a.nonce }) vm in
      if is_address address
      then hydrate_storage address (dump_contract_storage tr d address)
          (hydrate_code address a d vm1)
      else none

  -- The VM with the recipient and then the caller.
  unfoldable pub prepare : ℕ → Text → Text → tr.Db → Option Vm
  unfolding hydrate_account
  prepare chain_id to from d = do
    vm1 ← hydrate_account to d (create_vm chain_id)
    hydrate_account from d vm1

  abbrev pub run_of : CallParams → MachineRun
  run_of p = record {
    to = drop_0x p.to;
    caller = caller_of p.from;
    value = p.value;
    payload = from_hex (drop_0x p.payload);
    gas = p.gas;
  }

  -- `evmCall`: the data that it returns, and the result; the state is not written.
  unfoldable pub evm_call : ℕ → CallParams → tr.Db → Option (Text × EvmResult)
  unfolding prepare caller_of log_of
  evm_call chain_id p d = do
    vm ← prepare chain_id (drop_0x p.to) (caller_of p.from) d
    (vm1, r) ← run_call (run_of p) vm
    some (
      ox ++ to_hex r.return_value,
      record { gas_used = r.gas_used; logs = map log_of r.logs; runtime_code = [] },
    )

  -- `Math.max(res.gasUsed, 21000)`
  unfoldable pub evm_estimate_gas : ℕ → CallParams → tr.Db → Option Text
  unfolding evm_call
  evm_estimate_gas chain_id p d = do
    (answer, r) ← evm_call chain_id p d
    some (ox ++ to_string 16 (pos (if ltb r.gas_used 21000 then 21000 else r.gas_used)))

  -- The writes of the storage; a throw ends them, and is caught.
  unfoldable pub persist_storage : Text → TextMap Text → tr.Db → tr.Db
  persist_storage address [] d = d
  persist_storage address ((key, value) ∷ l) d =
      elim (put_contract_storage tr address (from_hex key) (from_hex value) d) [
        | none ↦ d
        | some d1 ↦ persist_storage address l d1
      ]

  abbrev pub persist_dump : Text → Option (TextMap Text) → tr.Db → tr.Db
  persist_dump address none d = d
  persist_dump address (some l) d = persist_storage address l d

  -- The code of an account, and the account again with the hash of the code; false for a throw.
  unfoldable pub persist_code : Text → Account → Bytes → tr.Db → tr.Db × Bool
  persist_code address a [] d = (d, true)
  persist_code address a (b ∷ bs) d =
      let hash = c.keccak_256 (b ∷ bs) in
      let d1 = put_code tr hash (b ∷ bs) d in
      elim (put_account tr address (record a { code_hash = hash }) d1) [
        | none ↦ (d1, false)
        | some d2 ↦ (d2, true)
      ]

  abbrev pub then_storage : Vm → Text → tr.Db × Bool → tr.Db × Bool
  then_storage vm address (d, false) = (d, false)
  then_storage vm address (d, true) = (persist_dump address (dump_vm_storage vm address) d, true)

  -- One round of the loop of `persistVmState`.
  unfoldable pub persist_account : Vm → Text → tr.Db → tr.Db × Bool
  unfolding persist_code persist_storage
  persist_account vm address d =
      if not (length address == 40)
      then (d, true)
      else if not (is_address address)
      then (d, false)
      else elim (get_vm_account vm address) [
        | none ↦ (d, true)
        | some e ↦
            let a = record (get_account tr d address) { balance = e.balance; nonce = e.nonce } in
            elim (put_account tr address a d) [
              | none ↦ (d, false)
              | some d1 ↦
                  then_storage vm address (persist_code address a (get_vm_code vm address) d1)
            ]
      ]

  abbrev pub and_persist : Vm → Text → tr.Db × Bool → tr.Db × Bool
  and_persist vm address (d, false) = (d, false)
  and_persist vm address (d, true) = persist_account vm address d

  unfoldable pub persist_vm_state : Vm → Text → Text → tr.Db → tr.Db × Bool
  unfolding persist_account
  persist_vm_state vm from to d = and_persist vm to (persist_account vm from d)

  abbrev pub answer_of : MachineResult → tr.Db × Bool → tr.Db × Option EvmResult
  answer_of r (d, false) = (d, none)
  answer_of r (d, true) =
      (d, some (record { gas_used = r.gas_used; logs = map log_of r.logs; runtime_code = [] }))

  -- `evmCallWithPersist`: the state, and the result without the data that it returns.
  unfoldable pub evm_call_with_persist : ℕ → CallParams → tr.Db → tr.Db × Option EvmResult
  unfolding prepare persist_vm_state
  evm_call_with_persist chain_id p d =
      elim (prepare chain_id (drop_0x p.to) (caller_of p.from) d >>= run_call (run_of p)) [
        | none ↦ (d, none)
        | some (vm, r) ↦ answer_of r (persist_vm_state vm (caller_of p.from) (drop_0x p.to) d)
      ]

  -- `evmCreate`: nothing of the state of the VM is written back.
  unfoldable pub evm_create : ℕ → CallParams → tr.Db → Option EvmResult
  unfolding hydrate_account log_of
  evm_create chain_id p d = do
    vm ← hydrate_account (drop_0x p.from) d (create_vm chain_id)
    (vm1, r) ←
        run_code
          (record (run_of p) {
            caller = drop_0x p.from;
            to = [];
            payload = from_hex (drop_0x p.payload);
          })
          vm
    some (record { gas_used = r.gas_used; logs = map log_of r.logs; runtime_code = r.return_value })

  -- What the executor passes on.
  abbrev pub params_of : EvmCall → CallParams
  params_of e = record {
    from = ox ++ e.from;
    to = e.to;
    payload = ox ++ to_hex e.payload;
    value = e.value;
    gas = e.gas;
  }

  -- The executor's environment over this VM.
  abbrev pub machine_env : ℕ → Env tr → Env tr
  machine_env chain_id env = record env {
    evm_call = λ e d. evm_call_with_persist chain_id (params_of e) d;
    evm_create = λ e d. (d, evm_create chain_id (params_of e) d);
  }
