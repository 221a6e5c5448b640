-- ===== src/State.antt =====
-- src/state: accounts, and the state manager over a Merkle Patricia trie.
pub mod Account
pub mod Storable
pub mod Manager
