-- ===== src/Evm/Types.antt =====
-- The calls of the EVM. The package ethereumjs is not under src/: a VM with its own state is the record
-- `Machine`, with `none` where it throws.
use bery_bc.Base.{ℕ, Bool, Option, List, [], ◌∷◌, ◌++◌, map, replicate}
use bery_bc.Base.Int.{ℤ}
use bery_bc.Base.TextMap.{TextMap}
use bery_bc.Bytes.{Bytes, Text, to_hex}
use bery_bc.Storage.Bloom.{drop_0x}
use bery_bc.Storage.Logs.{ox}
use bery_bc.Vm.Executor.{Log}

-- `evm.runCall` and `evm.runCode`; a creation has no recipient.
pub record MachineRun : Type 0 where
  pub to : Text
  pub caller : Text
  pub value : ℤ
  pub payload : Bytes
  pub gas : ℕ

pub record MachineLog : Type 0 where
  pub address : Text
  pub topics : List Bytes
  pub payload : Bytes

pub record MachineResult : Type 0 where
  pub return_value : Bytes
  pub gas_used : ℕ
  pub logs : List MachineLog

-- Balance and nonce.
pub record MachineAccount : Type 0 where
  pub balance : ℤ
  pub nonce : ℤ

pub record Machine : Type 1 where
  pub Vm : Type 0
  pub create_vm : ℕ → Vm
  pub is_address : Text → Bool
  pub put_vm_account : Text → MachineAccount → Vm → Vm
  pub get_vm_account : Vm → Text → Option MachineAccount
  pub put_vm_code : Text → Bytes → Vm → Vm
  pub get_vm_code : Vm → Text → Bytes
  pub put_vm_storage : Text → Bytes → Bytes → Vm → Option Vm
  pub dump_vm_storage : Vm → Text → Option (TextMap Text)
  pub run_call : MachineRun → Vm → Option (Vm × MachineResult)
  pub run_code : MachineRun → Vm → Option (Vm × MachineResult)

-- The value and the gas of a call are numbers already.
pub record CallParams : Type 0 where
  pub from : Text
  pub to : Text
  pub payload : Text
  pub value : ℤ
  pub gas : ℕ

-- `(params.from || '0x' + '0'.repeat(40)).replace('0x', '')`
unfoldable pub caller_of : Text → Text
caller_of [] = replicate 40 b'0'
caller_of (c ∷ cs) = drop_0x (c ∷ cs)

unfoldable pub log_of : MachineLog → Log
log_of l = record {
  address = l.address;
  topics = map (λ t. ox ++ to_hex t) l.topics;
  payload = ox ++ to_hex l.payload;
}
