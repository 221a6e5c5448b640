-- ===== src/Vm/Task.antt =====
-- The messages between the executor and the worker of src/vm/worker.ts, and the errors that the
-- worker throws.
use bery_bc.Base.{ℕ, Bool, true, false, Option, none, some, List}
use bery_bc.Base.Int.{ℤ}
use bery_bc.Base.TextMap.{TextMap}
use bery_bc.Bytes.{Bytes, Text}
use bery_bc.State.Account.{Account}
use bery_bc.Core.Transaction.Json.{TransactionJson}

-- One constructor for each `throw` of the worker; `thrown` is one of a callee.
pub data Error : Type 0 where
  out_of_gas_base out_of_gas invalid_signature invalid_nonce insufficient_balance : Error
  staking_missing_data unstake_missing_amount insufficient_stake insolvent : Error
  unknown_command wasm_failed thrown : Error

-- What the worker's handler ends with.
pub data Result {ℓ} (A : Type ℓ) : Type ℓ where
  err : Error → Result A
  ok : A → Result A

abbrev pub throw_if : Bool → Error → Result (Unit {0})
throw_if true error = err error
throw_if false error = ok tt

-- A call that may throw.
abbrev pub try {ℓ} : {A : Type ℓ} → Option A → Result A
try none = err thrown
try (some value) = ok value

infixl 5 ◌>>◌ ◌>>=◌
-- A throw skips what follows it.
abbrev pub ◌>>=◌ {ℓ ℓ'} : {A : Type ℓ} {B : Type ℓ'} → Result A → (A → Result B) → Result B
err error >>= next = err error
ok value >>= next = next value

abbrev pub ◌>>◌ {ℓ} : {A : Type ℓ} → Result (Unit {0}) → Result A → Result A
err error >> next = err error
ok _ >> next = next

pub record TxTask : Type 0 where
  pub tx_data : TransactionJson
  pub sender_account_data : Option Bytes
  pub receiver_account_data : Option Bytes
  pub code : Option Bytes
  pub is_create : Bool
  pub storage : TextMap Text
  pub gas_limit : Option ℕ

pub record StateChange : Type 0 where
  pub address : Text
  pub account_data : Bytes

pub record NewCode : Type 0 where
  pub hash : Bytes
  pub code : Bytes

-- A successful result; `storage_changes` is absent if nothing was written.
pub record TxResult : Type 0 where
  pub state_changes : List StateChange
  pub new_code : Option NewCode
  pub storage_changes : Option (TextMap Text)
  pub contract_address : Text
  pub gas_used : ℤ

-- The variables `sender` and `receiver` of the worker: `none` is a receiver that is the sender's
-- object, so that a write to one is a write to both.
pub record Parties : Type 0 where
  pub sender : Account
  pub receiver : Option Account

abbrev pub receiver_of : Parties → Account
receiver_of p = elim p.receiver [ none ↦ p.sender | some a ↦ a ]

abbrev pub set_sender : Account → Parties → Parties
set_sender a p = record p { sender = a }

abbrev pub set_receiver : Account → Parties → Parties
set_receiver a p = elim p.receiver [
  | none ↦ record p { sender = a }
  | some _ ↦ record p { receiver = some a }
]
