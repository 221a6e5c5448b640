-- ===== src/Vm/Executor/Defs.antt =====
-- The class `VMExecutor`: one transaction, and those of a block.
use bery_bc.Base.{
  ℕ, ◌+◌, Bool, true, false, Option, none, some, List, [], ◌∷◌, ◌++◌, replicate, same, not, ◌||◌,
  ◌&&◌, if◌then◌else◌,
}
use bery_bc.Base.Int.{ℤ, pos, ◌+ℤ◌, ◌*ℤ◌}
use bery_bc.Base.TextMap.{TextMap}
use bery_bc.Base.Throws.{◌>>=◌}
use bery_bc.Bytes.{Bytes, Text, from_hex}
use bery_bc.Crypto.{Crypto}
use bery_bc.State.Account.{Account, zero_hash, serialize, deserialize}
use bery_bc.State.Manager.{
  Trie, get_account, put_account, put_code, get_code, put_contract_storage, dump_contract_storage,
}
use bery_bc.Core.Transaction.{Transaction, system_sender, staking_address}
use bery_bc.Core.Transaction
use bery_bc.Core.Transaction.Json
use bery_bc.Vm.Task.{TxTask, TxResult, StateChange, NewCode, Result, ok, err}
use bery_bc.Vm.Executor.Types.{
  Env, Event, answers, silent, dies, Receipt, Outcome, applied, refused, rejected, receipt_of,
}
use bery_bc.Vm.Executor.Evm.{execute_evm_call, execute_evm_create}

-- `!tx.to || tx.to === '' || tx.to === '0'.repeat(40)`
unfoldable pub is_creation : Transaction → Bool
is_creation t = same t.to [] || same t.to (replicate 40 b'0')

-- What `executeBlock` returns, and its running sum of gas.
pub record BlockRun : Type 0 where
  pub valid_txs : List Transaction
  pub receipts : List Receipt
  pub cumulative_gas_used : ℤ
  pub total_fees : ℤ

-- One transaction of the block, at its index.
unfoldable pub note : ℕ → Transaction → Outcome → BlockRun → BlockRun
note i t (applied r) b =
    let gas = b.cumulative_gas_used +ℤ r.gas_used in
    record {
      valid_txs = b.valid_txs ++ (t ∷ []);
      receipts =
          b.receipts ++ ((record r { cumulative_gas_used = gas; transaction_index = i }) ∷ []);
      cumulative_gas_used = gas;
      total_fees = b.total_fees +ℤ r.gas_used *ℤ t.gas_price;
    }
note i t (refused r) b = b
note i t rejected b = b

abbrev pub empty_run : BlockRun
empty_run = record {
  valid_txs = [];
  receipts = [];
  cumulative_gas_used = pos 0;
  total_fees = pos 0;
}

module _ (tr : Trie) (c : Crypto) (env : Env tr) where
  -- The state changes of an answer.
  unfoldable pub put_changes : List StateChange → tr.Db → Option tr.Db
  put_changes [] d = some d
  put_changes (s ∷ ss) d = do
    d' ← put_account tr s.address (deserialize s.account_data) d
    put_changes ss d'

  abbrev put_new_code : Option NewCode → tr.Db → tr.Db
  put_new_code none d = d
  put_new_code (some n) d = put_code tr n.hash n.code d

  -- The storage changes of an answer, keys and values in hexadecimal.
  unfoldable pub put_storage : Text → TextMap Text → tr.Db → Option tr.Db
  put_storage address [] d = some d
  put_storage address ((key, value) ∷ m) d = do
    d' ← put_contract_storage tr address (from_hex key) (from_hex value) d
    put_storage address m d'

  abbrev put_storage_changes : Text → Option (TextMap Text) → tr.Db → Option tr.Db
  put_storage_changes address none d = some d
  put_storage_changes address (some m) d = put_storage address m d

  -- The message handler; `none` is a throw that nothing catches.
  unfoldable pub handle_answer : Transaction → Result TxResult → tr.Db → Option (tr.Db × Outcome)
  unfolding put_changes put_storage
  handle_answer t (ok r) d = do
    d1 ← put_changes r.state_changes d
    d2 ← put_storage_changes r.contract_address r.storage_changes (put_new_code r.new_code d1)
    hash ← Transaction.hash c t
    some (d2, applied (receipt_of t hash (some r.contract_address) r.gas_used true []))
  handle_answer t (err e) d = do
    hash ← Transaction.hash c t
    some (d, refused (receipt_of t hash none (pos 0) false []))

  -- The code of the receiver, if it is a contract whose code is known.
  unfoldable pub code_of : Account → tr.Db → Option Bytes
  code_of receiver d =
      if same receiver.code_hash zero_hash then none else get_code tr d receiver.code_hash

  -- The storage that the worker is given.
  unfoldable pub storage_for : Transaction → Account → tr.Db → TextMap Text
  storage_for t receiver d =
      if not (same receiver.code_hash zero_hash) || same t.to staking_address
      then dump_contract_storage tr d t.to
      else []

  -- The message to the worker; `none` where an account or the transaction cannot be written.
  unfoldable pub task_for : Transaction → tr.Db → Option TxTask
  unfolding code_of storage_for
  task_for t d = do
    let receiver = get_account tr d t.to
    sender_data ← serialize (get_account tr d t.from)
    receiver_data ← serialize receiver
    j ← Json.to_json c t
    some (record {
      tx_data = j;
      sender_account_data = some sender_data;
      receiver_account_data = some receiver_data;
      code = code_of receiver d;
      is_create = false;
      storage = storage_for t receiver d;
      gas_limit = some t.gas_limit;
    })

  abbrev on_event : Event → Transaction → tr.Db → Option (tr.Db × Outcome)
  on_event answers t d = elim (task_for t d) [
    | none ↦ some (d, rejected)
    | some task ↦ handle_answer t (env.worker task) d
  ]
  on_event silent t d = some (d, rejected)
  on_event dies t d = some (d, rejected)

  abbrev is_some : Option Bytes → Bool
  is_some none = false
  is_some (some b) = true

  unfoldable pub process_tx : Event → Transaction → tr.Db → Option (tr.Db × Outcome)
  unfolding is_creation execute_evm_call execute_evm_create task_for handle_answer code_of
  process_tx event t d =
      if is_creation t
      then some (execute_evm_create tr c env t d)
      else if is_some (code_of (get_account tr d t.to) d) && not (same t.to staking_address)
      then some (execute_evm_call tr c env t d)
      else on_event event t d

  unfoldable pub run_from :
      ℕ → List (Transaction × Event) → BlockRun → tr.Db → Option (tr.Db × BlockRun)
  unfolding process_tx note
  run_from i [] b d = some (d, b)
  run_from i ((t, event) ∷ l) b d = do
    (d', o) ← process_tx event t d
    run_from (i + 1) l (note i t o b) d'

  unfoldable pub execute_block : List (Transaction × Event) → tr.Db → Option (tr.Db × BlockRun)
  unfolding run_from
  execute_block l d = run_from 0 l empty_run d
