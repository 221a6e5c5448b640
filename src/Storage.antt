-- ===== src/Storage.antt =====
-- src/storage/block_store.ts over the database of src/storage/index.ts.
pub mod Database
pub mod Keys
pub mod Blocks
pub mod Chain
pub mod Refinement
pub mod Lookups
pub mod Transactions
pub mod Logs
pub mod Bloom
pub mod Receipts
pub mod FilterLaws
pub mod LogLaws
pub mod BloomLaws
