-- ===== src/Network.antt =====
-- src/network/p2p.ts: what a node publishes, and what it makes of a message.
pub mod Sync
mod Defs
unfoldable pub use Defs.*
