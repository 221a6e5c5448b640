-- ===== src/Tests.antt =====
-- The theorems at concrete inputs.
mod Data
mod Codec
mod Forms
mod Storage
mod Restart
mod Auth
mod Agreement
mod Api
mod Core
mod Pool
mod Ledger
mod Consensus
mod Wire
mod Network
mod Chain
mod Rpc
mod Stakes
mod Reward
mod Nonce
