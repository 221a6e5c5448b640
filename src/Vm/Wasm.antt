-- ===== src/Vm/Wasm.antt =====
-- The calls of a WASM contract into the worker of src/vm/worker.ts. The engine is not under src/: a
-- run of a module is a value of `Run`, the calls that it makes and what it does with the answers.
use bery_bc.Base.{ℕ, Bool, Option, none, some, [], ◌∷◌, if◌then◌else◌}
use bery_bc.Base.Int.{ℤ, pos, ◌+ℤ◌, ltb_ℤ}
use bery_bc.Base.TextMap.{TextMap, lookup, insert}
use bery_bc.Bytes.{Bytes, Text, to_hex, from_hex}
use bery_bc.Vm.Task.{out_of_gas, wasm_failed, Result, ok, err}

-- In `get_state` and `set_state` the test says if the module's memory is known to the worker yet;
-- the answer to `get_state` is the value, of which the module sees the length and, at its address,
-- the bytes. `trap` is `abort` and every other failure.
pub data Run : Type 0 where
  finish trap : Run
  get_state : Bool → Bytes → (Bytes → Run) → Run
  set_state : Bool → Bytes → Bytes → Run → Run
  gas : ℤ → Run → Run

abbrev pub storage_read : ℕ
storage_read = 200

abbrev pub storage_write : ℕ
storage_write = 20000

-- `checkGas`
unfoldable pub check_gas : ℕ → ℤ → ℤ → Result ℤ
check_gas limit used amount =
    if ltb_ℤ (pos limit) (used +ℤ amount) then err out_of_gas else ok (used +ℤ amount)

abbrev written_or : TextMap Text → TextMap Text → Text → Option Text
written_or changes storage key = elim (lookup key changes) [
  | none ↦ lookup key storage
  | some [] ↦ lookup key storage
  | some (x ∷ xs) ↦ some (x ∷ xs)
]

abbrev bytes_or_none : Option Text → Bytes
bytes_or_none none = []
bytes_or_none (some text) = from_hex text

-- The gas used and the storage changes after a run; any failure is reported as one of WASM.
unfoldable pub execute : ℕ → TextMap Text → Run → ℤ → TextMap Text → Result (ℤ × TextMap Text)
unfolding check_gas
execute limit storage finish used changes = ok (used, changes)
execute limit storage trap used changes = err wasm_failed
execute limit storage (get_state ready key next) used changes =
    elim (check_gas limit used (pos storage_read)) [
      | err e ↦ err wasm_failed
      | ok used' ↦
          execute limit storage
            (next (if ready then bytes_or_none (written_or changes storage (to_hex key)) else []))
            used' changes
    ]
execute limit storage (set_state ready key value next) used changes =
    elim (check_gas limit used (pos storage_write)) [
      | err e ↦ err wasm_failed
      | ok used' ↦
          execute limit storage next used'
            (if ready then insert (to_hex key) (to_hex value) changes else changes)
    ]
execute limit storage (gas amount next) used changes = elim (check_gas limit used amount) [
  | err e ↦ err wasm_failed
  | ok used' ↦ execute limit storage next used' changes
]
