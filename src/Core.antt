-- ===== src/Core.antt =====
-- src/core and src/common: transactions, blocks and the Merkle root of a block's transactions.
pub mod Transaction
pub mod Merkle
pub mod Block
