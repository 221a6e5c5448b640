-- ===== src/Vm.antt =====
-- src/vm: the worker that executes one transaction, and the executor that runs a block.
pub mod Task
pub mod Staking
pub mod Wasm
pub mod Worker
pub mod Executor
