-- ===== src/Core/Merkle.antt =====
-- src/common/merkle.ts. `computeRoot` pushes onto the array that it is given; its callers pass a
-- fresh array, and nobody reads it afterwards.
pub mod Laws
mod Defs
unfoldable pub use Defs.*
