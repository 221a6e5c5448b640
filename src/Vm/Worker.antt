-- ===== src/Vm/Worker.antt =====
-- The message handler of src/vm/worker.ts.
pub mod Pay
pub mod Replay
pub mod Transfer
mod Defs
unfoldable pub use Defs.*
