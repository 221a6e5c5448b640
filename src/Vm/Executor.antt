-- ===== src/Vm/Executor.antt =====
-- src/vm/executor.ts: the transactions of a block, one after the other.
pub mod Forgery
pub mod Fees
mod Types
mod Evm
mod Defs
unfoldable pub use Types.*
unfoldable pub use Evm.*
unfoldable pub use Defs.*
