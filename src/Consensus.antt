-- ===== src/Consensus.antt =====
-- src/consensus/bft.ts: the consensus of one validator node. A handler runs as one step, its awaited
-- calls included; a call that is not awaited goes on later, as a task of the node. `startRound` runs
-- at once up to its own calls that are not awaited.
pub mod Node
pub mod Signing
pub mod Round
pub mod Commit
pub mod Quorum
pub mod Proposal
pub mod System
pub mod Majority
pub mod Ballots
pub mod Follows
pub mod Slashing
pub mod Torn
pub mod Equivocation
pub mod Tokenomics
pub mod Sync
pub mod Start
pub mod Catchup
pub mod Serve
pub mod Restart
pub mod Rotation
pub mod Agreement
pub mod Progress
pub mod Runs
