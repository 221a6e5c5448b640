-- ===== src/Evm.antt =====
-- src/evm/index.ts: the accounts that the EVM is given, and what is written back.
pub mod Writes
pub mod Frame
mod Types
mod Defs
unfoldable pub use Types.*
unfoldable pub use Defs.*
