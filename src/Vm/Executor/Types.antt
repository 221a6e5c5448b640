-- ===== src/Vm/Executor/Types.antt =====
-- What the executor works on and answers, and its environment. The EVM of src/evm runs on a package
-- that is not under src/: its two entry points are fields of `Env`. What the worker thread does to a
-- message, and when it does not answer, is given by one event for each transaction.
use bery_bc.Base.{ℕ, Bool, Option, none, some, List}
use bery_bc.Base.Int.{ℤ, pos}
use bery_bc.Bytes.{Bytes, Text, to_hex, to_string}
use bery_bc.Crypto.{Crypto}
use bery_bc.State.Manager.{Trie}
use bery_bc.Core.Transaction.{Transaction, system_sender, staking_address}
use bery_bc.Core.Transaction
use bery_bc.Vm.Task.{TxTask, TxResult, Result}

pub record Log : Type 0 where
  pub address : Text
  pub topics : List Text
  pub payload : Text

pub record EvmResult : Type 0 where
  pub gas_used : ℕ
  pub logs : List Log
  pub runtime_code : Bytes

-- The sender, receiver, data, value and gas of `evmCallWithPersist`.
pub record EvmCall : Type 0 where
  pub from : Text
  pub to : Text
  pub payload : Bytes
  pub value : ℤ
  pub gas : ℕ

-- The worker's handler, and the EVM on a state: `none` beside the state is a throw.
pub record Env (tr : Trie) : Type 0 where
  pub worker : TxTask → Result TxResult
  pub evm_call : EvmCall → tr.Db → tr.Db × Option EvmResult
  pub evm_create : EvmCall → tr.Db → tr.Db × Option EvmResult

-- A worker answers, is silent for five seconds, or dies.
pub data Event : Type 0 where
  answers silent dies : Event

-- `status` is '0x1' or '0x0'.
pub record Receipt : Type 0 where
  pub transaction_hash : Text
  pub from : Text
  pub to : Text
  pub contract_address : Option Text
  pub gas_used : ℤ
  pub effective_gas_price : Text
  pub status : Bool
  pub logs : List Log
  pub cumulative_gas_used : ℤ
  pub transaction_index : ℕ

-- How the promise of `processTx` ends.
pub data Outcome : Type 0 where
  applied refused : Receipt → Outcome
  rejected : Outcome

abbrev pub receipt_of : Transaction → Bytes → Option Text → ℤ → Bool → List Log → Receipt
receipt_of t hash contract_address gas_used status logs = record {
  transaction_hash = to_hex hash;
  from = t.from;
  to = t.to;
  contract_address = contract_address;
  gas_used = gas_used;
  effective_gas_price = to_string 10 t.gas_price;
  status = status;
  logs = logs;
  cumulative_gas_used = pos 0;
  transaction_index = 0;
}

module _ (tr : Trie) (c : Crypto) where
  -- An outcome that cites the transaction's hash; a throw of the hash rejects the promise, and what
  -- was written before stays written.
  unfoldable pub with_hash : Transaction → (Bytes → Outcome) → tr.Db → tr.Db × Outcome
  with_hash t outcome d = elim (Transaction.hash c t) [
    | none ↦ (d, rejected)
    | some hash ↦ (d, outcome hash)
  ]
