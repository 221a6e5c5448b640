-- ===== src/State/Manager.antt =====
-- src/state/state_manager.ts.
pub mod Laws
pub mod StorageLaws
pub mod Toy
mod Defs
unfoldable pub use Defs.*
