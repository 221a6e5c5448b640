-- ===== src/Mempool.antt =====
-- src/mempool/index.ts: the pool of transactions that wait for a block.
pub mod Fees
pub mod Invariant
pub mod Admission
pub mod Copies
pub mod Order
mod Defs
unfoldable pub use Defs.*
