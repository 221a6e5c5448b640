-- ===== src/Vm/Worker/Defs.antt =====
-- The handler, step by step. A throw of any step is answered with a failure.
use bery_bc.Base.{
  ℕ, ◌-◌, ◌*◌, Option, none, some, [], ◌∷◌, ◌++◌, length, drop, same, ltb, not, ◌&&◌, if◌then◌else◌,
}
use bery_bc.Base.Int.{ℤ, pos, ◌+ℤ◌, ◌-ℤ◌, ◌*ℤ◌, ltb_ℤ, eqb_ℤ, pos_part}
use bery_bc.Base.TextMap.{TextMap}
use bery_bc.Bytes.{Bytes, Text, to_hex, from_hex, write_be}
use bery_bc.Crypto.{Crypto}
use bery_bc.State.Account.{Account, empty_account, serialize, deserialize}
use bery_bc.Core.Transaction.{Transaction, system_sender, staking_address, or_default}
use bery_bc.Core.Transaction
use bery_bc.Core.Transaction.Json
use bery_bc.Mempool.{to_number}
use bery_bc.Vm.Task.{
  out_of_gas_base, invalid_signature, invalid_nonce, insufficient_balance, wasm_failed, Result, ok,
  err, ◌>>=◌, ◌>>◌, throw_if, try, TxTask, TxResult, NewCode, Parties, receiver_of, set_sender,
  set_receiver,
}
use bery_bc.Vm.Staking.{JsonLists, StakeResult, read_state, run_command}
use bery_bc.Vm.Wasm.{Run, check_gas, execute}

-- `GAS_COSTS.BASE` and `GAS_COSTS.WASM_EXECUTION_BASE`
abbrev pub base_gas : ℕ
base_gas = 21000

abbrev pub wasm_execution_base : ℕ
wasm_execution_base = 1000

-- An account that is not given is a new one.
abbrev pub read_account : Option Bytes → Account
read_account none = empty_account
read_account (some data_bytes) = deserialize data_bytes

-- Step 3: the next nonce, and also the account's own.
unfoldable pub check_nonce : Transaction → Account → Result (Unit {0})
check_nonce t sender = do
  n ← try (to_number sender.nonce)
  throw_if (not (eqb_ℤ (pos t.nonce) (n +ℤ pos 1)) && not (eqb_ℤ (pos t.nonce) n)) invalid_nonce

-- Steps 4 and 5, and the sender's side of step 6.
unfoldable pub charge : Transaction → ℕ → Account → Result Account
unfolding check_nonce
charge t gas_limit sender = do
  check_nonce t sender
  let upfront = pos gas_limit *ℤ t.gas_price
  throw_if (ltb_ℤ sender.balance (t.value +ℤ upfront)) insufficient_balance
  ok (record sender {
    balance = sender.balance -ℤ upfront -ℤ t.value;
    nonce = sender.nonce +ℤ pos 1;
  })

-- Steps 3 to 6: the system is not charged, and the receiver is paid in any case.
unfoldable pub pay : Transaction → ℕ → Parties → Result Parties
unfolding charge
pay t gas_limit p = do
  sender ← (if same t.from system_sender then ok p.sender else charge t gas_limit p.sender)
  let p' = set_sender sender p
  ok (set_receiver (record (receiver_of p') { balance = (receiver_of p').balance +ℤ t.value }) p')

-- The gas that was not used is paid back, also to the system.
unfoldable pub refund : Transaction → ℕ → ℤ → Parties → Parties
refund t gas_limit gas_used p =
    if ltb_ℤ gas_used (pos gas_limit)
    then set_sender
        (record (p.sender) {
          balance = p.sender.balance +ℤ (pos gas_limit -ℤ gas_used) *ℤ t.gas_price;
        })
        p
    else p

-- What the code part of step 6 leaves.
pub record Executed : Type 0 where
  pub parties : Parties
  pub new_code : Option NewCode
  pub changes : TextMap Text
  pub gas_used : ℤ

module _ (c : Crypto) (j : JsonLists) (instantiate : Bytes → Option Run) where
  -- The address of a new contract: the last 20 bytes of a hash of the sender and its nonce.
  unfoldable pub created_address : Transaction → Account → Option Text
  created_address t sender = elim (write_be 8 (pos_part sender.nonce)) [
    | none ↦ none
    | some nonce_bytes ↦
        let hash = c.keccak_256 (from_hex t.from ++ nonce_bytes) in
        some (to_hex (drop (length hash - 20) hash))
  ]

  -- Step 2: the accounts, and the receiver's address.
  unfoldable pub load_parties : TxTask → Transaction → Result (Parties × Text)
  unfolding created_address
  load_parties task t =
      let sender = read_account task.sender_account_data in
      if task.is_create
      then (do
        address ← try (created_address t sender)
        ok (record { sender = sender; receiver = some empty_account }, address))
      else if same t.to t.from
      then ok (record { sender = sender; receiver = none }, t.to)
      else ok (
        record { sender = sender; receiver = some (read_account task.receiver_account_data) },
        t.to,
      )

  -- The native staking logic, for the staking address alone.
  unfoldable pub run_staking : TxTask → Transaction → Parties → Result StakeResult
  run_staking task t p =
      if same t.to staking_address && not task.is_create
      then run_command c j t t.payload (read_state c j t task.storage) p
      else ok (record { changes = []; parties = p })

  -- The code: stored for a creation, run for a call.
  unfoldable pub run_code : TxTask → ℕ → StakeResult → Result Executed
  run_code task gas_limit s = elim task.code [
    | none ↦ ok (record {
      parties = s.parties;
      new_code = none;
      changes = s.changes;
      gas_used = pos base_gas;
    })
    | some code ↦
        if task.is_create
        then (do
          let code_hash = c.generichash code
          used ← check_gas gas_limit (pos base_gas) (pos (625 * length code))
          ok (record {
            parties =
                set_receiver (record (receiver_of s.parties) { code_hash = code_hash }) s.parties;
            new_code = some (record { hash = code_hash; code = code });
            changes = s.changes;
            gas_used = used;
          }))
        else do
          used ← check_gas gas_limit (pos base_gas) (pos wasm_execution_base)
          (used', changes) ← (elim (instantiate code) [
            | none ↦ err wasm_failed
            | some run ↦ execute gas_limit task.storage run used s.changes
          ])
          ok (record { parties = s.parties; new_code = none; changes = changes; gas_used = used' })
  ]

  abbrev pub changes_or_none : TextMap Text → Option (TextMap Text)
  changes_or_none [] = none
  changes_or_none (e ∷ m) = some (e ∷ m)

  -- Step 7: the result, with both accounts written out.
  unfoldable pub answer : Transaction → Text → ℕ → Executed → Result TxResult
  answer t address gas_limit x = do
    let p = refund t gas_limit x.gas_used x.parties
    sender_data ← try (serialize p.sender)
    receiver_data ← try (serialize (receiver_of p))
    ok (record {
      state_changes =
          (record { address = t.from; account_data = sender_data })
          ∷ (record { address = address; account_data = receiver_data })
          ∷ [];
      new_code = x.new_code;
      storage_changes = changes_or_none x.changes;
      contract_address = address;
      gas_used = x.gas_used;
    })

  -- The steps after the transaction has been read.
  unfoldable pub run_transaction : TxTask → Transaction → Result TxResult
  run_transaction task t = do
    let gas_limit = or_default task.gas_limit 10000000
    throw_if (ltb gas_limit base_gas) out_of_gas_base
    throw_if (not (Transaction.verify c t)) invalid_signature
    (loaded, address) ← load_parties task t
    paid ← pay t gas_limit loaded
    staked ← run_staking task t paid
    executed ← run_code task gas_limit staked
    answer t address gas_limit executed

  unfoldable pub handle_message : TxTask → Result TxResult
  unfolding run_transaction
  handle_message task = do t ← try (Json.from_json task.tx_data); run_transaction task t
