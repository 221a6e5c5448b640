-- ===== src/Launch.antt =====
-- src/index.ts: the wiring of the mempool and the network (Gossip), and the genesis of the state
-- (Genesis).
pub mod Gossip
pub mod GossipLaws
pub mod Genesis
pub mod GenesisLaws
