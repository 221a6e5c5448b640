-- ===== src/Core/Transaction.antt =====
-- src/core/transaction.ts. The cached `_hash` is left out: `sign` clears it, and nothing else
-- writes a field that the hash reads, so the getter always returns what it would compute.
pub mod Signing
pub mod Json
mod Defs
unfoldable pub use Defs.*
