-- ===== src/Core/Block.antt =====
-- src/core/block.ts: headers and blocks. The cached `_hash` is left out, as for transactions.
pub mod Verify
pub mod Json
mod Defs
unfoldable pub use Defs.*
