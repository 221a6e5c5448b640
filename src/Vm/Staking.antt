-- ===== src/Vm/Staking.antt =====
-- The native staking contract, in the worker of src/vm/worker.ts. Stakes are kept in the storage of
-- the staking address under the staker's address, in hexadecimal.
pub mod Moves
pub mod Solvency
mod Defs
unfoldable pub use Defs.*
