-- ===== src/Lib.antt =====
-- The core of the Bery chain node (src/ of the repository, TypeScript): transactions, blocks, the
-- state of accounts, the mempool, the execution of transactions, the consensus of validators, the
-- store of blocks, the messages between nodes, the state at genesis, the adapter of the EVM, and the
-- parts of the HTTP interface that take transactions, list blocks, answer /rpc, keep the sources of
-- contracts and know users.
-- Paths are from the repository's root.
--
-- The parts, and the files that model them:
--   Bytes: `Buffer` and `BN` of the source, as lists of bytes and integers: hexadecimal, decimal and
--     big-endian forms with what they do out of range.
--   Crypto: src/crypto/keypair.ts and hash.ts. The hashes and secp256k1 are the record `Crypto`,
--     what they promise is `IsSound`, and Crypto.Toy meets it.
--   Core.Transaction, Core.Block: src/core/transaction.ts and block.ts with their JSON forms.
--     Core.Merkle: src/common/merkle.ts. Its loop runs on fuel, as many rounds as there are leaves.
--   State: src/state/account.ts and state_manager.ts over the record `Trie` with the laws `IsLawful`,
--     which State.Manager.Toy meets, and `KeepsStorage` for the tries of contracts.
--   Mempool: src/mempool/index.ts. The pool is a map in insertion order; reads of accounts are a
--     function that may throw.
--   Vm.Task, Vm.Staking, Vm.Wasm, Vm.Worker: src/vm/worker.ts, the handler of one message, with the
--     native staking commands and the imports of a contract module. A module that is instantiated is
--     a value of `Run`, and JSON lists are the record `JsonLists`.
--   Vm.Executor: src/vm/executor.ts. A worker answers, is silent or dies, by an event for each
--     transaction; the EVM is two fields of `Env`, which `machine_env` fills
--     by the adapter.
--   Evm: src/evm/index.ts, the adapter (Types, Defs) with what it writes to the state (Writes).
--     The package ethereumjs is the record `Machine`: it takes a `MachineRun` and answers with a
--     `MachineResult`.
--   Consensus: src/consensus/bft.ts, one node. `Node` is its state (Node), votes are signed and
--     verified (Signing), rounds start (Round), blocks are committed (Commit), votes are counted and
--     timeouts handled (Quorum), blocks are proposed and checked (Proposal), a peer's blocks are
--     taken (Sync), and the rest happens by events (System). A node starts from its store, asks its
--     peers for blocks and answers such requests (Start); what the peers answer is the record `Peers`,
--     and the loop of requests runs on fuel, as many rounds as heights are missing. The state manager
--     and the executor are the record `Ledger`. Messages, writes to the database and the timer are the
--     list `effects`; a call that is not awaited is a task that an event resumes. The reward of a block
--     is src/consensus/tokenomics.ts (Tokenomics), and its floating-point numbers are the record `Doubles`.
--   Network: src/network/p2p.ts. libp2p is the record `Pubsub`, and the texts of messages are the record
--     `Codecs` with `IsCodec`, which a toy codec meets. Sync joins a request to the handler of a peer.
--   Launch: src/index.ts, the callbacks that join mempool, network and consensus (Gossip), and the
--     accounts that a new chain starts with (Genesis).
--   Storage: src/storage/block_store.ts. The database is the record `Database` with the law
--     `IsDatabase`, the JSON texts are the record `Forms` with `IsReadable`, and a map meets the law.
--     Keys are in Keys, blocks and their indices in Blocks, receipts and logs in Logs and
--     Receipts, and the bloom of a block's logs in Bloom.
--   Api: src/api/index.ts, from a request to its answer: the validation of bodies (Fields), the faucet
--     (Faucet), the submission of transactions (Submit) and the pages of blocks (Pages), the methods of /rpc
--     (RpcForms, Rpc), and the registry of contracts of src/api/contract_registry.ts with the
--     verification of a source (Registry), and the handlers that only read (Lookups).
--   Auth: src/auth/user_store.ts (Users) and the handlers of src/api/index.ts that sign users up and in
--     (Handlers). bcrypt is the record `Passwords`; `toLowerCase`, `trim` and the token are arguments.
--   Tests: the theorems at concrete inputs, with a toy signature scheme, store and ledger.
--
-- How code becomes definitions: a method that changes an object returns the new object; a throw is
-- `none`, or an `Error` where the message of the worker matters; an awaited call belongs to the same
-- step. Numbers of JavaScript are natural numbers with the bounds of their encodings written out.
--
-- Not modelled: the start of libp2p and what is written to the console, the JSON form of the blocks that
-- one node answers another with, what happens while a node reads its validators at the start of round 0,
-- the proposer's name in a header without a validator, the rest of the HTTP interface
-- with its middleware and rate limits, `eth_sendRawTransaction`, the check of tokens, the users in a
-- PostgreSQL database, configuration, logging, the wait for peers at the start, the database under the
-- block store and the stream of its entries, ethereumjs, the timers, the lock that keeps handlers
-- of a node apart, and the web frontend.
pub mod Base
pub mod Bytes
pub mod Crypto
pub mod State
pub mod Core
pub mod Launch
pub mod Mempool
pub mod Vm
pub mod Consensus
pub mod Storage
pub mod Evm
pub mod Network
pub mod Api
pub mod Auth
pub mod Tests
