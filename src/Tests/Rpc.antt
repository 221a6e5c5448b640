-- ===== src/Tests/Rpc.antt =====
-- Tests of the methods of /rpc, of the registry of contracts, of the copies of a transaction, and of a node
-- with two proposals.
use bery_bc.Base.{ℕ, ◌≡◌, refl, true, Option, none, some, [], ◌∷◌, ◌++◌, same, replicate, arith}
use bery_bc.Base.Int.{pos}
use bery_bc.Base.TextMap.{lookup, insert}
use bery_bc.Bytes.{Bytes, Text, hex_value, to_hex, from_hex, write_be}
use bery_bc.Consensus.Torn.{IsTorn, sent, prevote_for}
use bery_bc.Consensus.Equivocation.{start_round_bans_self}
use bery_bc.Consensus.Node.{Node, Vote, has_slashed, bucket, prevote, get_proposer, get_quorum}
use bery_bc.Consensus.Round.{with_power, my_address, ballot, is_proposal, start_round}
use bery_bc.Consensus.Signing.{sign_vote, verify_vote, get_vote_bytes}
use bery_bc.Consensus.System.{run, task_resumed}
use bery_bc.Core.Block.{Block}
use bery_bc.Core.Transaction.{Transaction}
use bery_bc.Core.Transaction
use bery_bc.Crypto.Toy.{toy, low_bytes}
use bery_bc.Crypto.{get_address}
use bery_bc.Crypto
use bery_bc.Mempool.{add}
use bery_bc.Mempool.Copies.{copy_under, add-copy_under}
use bery_bc.State.Account.{deserialize}
use bery_bc.State.Manager.{get_account, get_code}
use bery_bc.State.Manager.Toy.{toy_trie, ToyDb}
use bery_bc.Storage.Blocks.{strip_0x}
use bery_bc.Storage.Database.{map_database}
use bery_bc.Storage.Logs.{ox}
use bery_bc.Api.Fields.{text, address_regex, is_valid_address}
use bery_bc.Api.Registry.{
  VerifiedContract, Registry, VerifyBody, saved, key_of, load, add_contract, get_contract,
  verify_contract, registered, bytecode_error,
}
use bery_bc.Api.RegistryLaws.{IsRegistry, add_contract-get}
use bery_bc.Api.VerifyLaws.{IsDeployed, verify_contract_checked}
use bery_bc.Api.RpcForms.{RpcConfig}
use bery_bc.Api.Rpc.{Chain}
use bery_bc.Tests.Consensus.{setup, toy_ledger, node}
use bery_bc.Tests.Core.{signed_tx}
use bery_bc.Tests.Data.{key, header}
use bery_bc.Tests.Forms.{toy_forms}
use bery_bc.Tests.Pool.{pool_of_one, hashed, added}

abbrev chain_at : ℕ → map_database.Db → Option (Chain toy_trie map_database toy_forms toy)
chain_at height d = some (record { height = height; blocks = d })

abbrev rpc_config : RpcConfig
rpc_config = record { chain_id = 8379; base_fee = 1; priority_fee = 1 }

add-copy_under_example :
    add toy none (copy_under (8 ∷ []) signed_tx) pool_of_one
    ≡ some (true, insert (to_hex (8 ∷ [])) (copy_under (8 ∷ []) signed_tx) pool_of_one)
unfolding lookup same to_hex hashed from_hex
add-copy_under_example =
    add-copy_under toy none signed_tx (8 ∷ []) [] pool_of_one added refl (omega arith)

abbrev proposal : ℕ → Block
proposal time = record {
  header = record header { height = 6; round = 1; timestamp = time; validator = 4 ∷ [] };
  transactions = [];
}

abbrev torn_node : Node ℕ
torn_node = record node {
  pending_blocks = (b'a' ∷ b'1' ∷ [], proposal 1) ∷ (b'a' ∷ b'2' ∷ [], proposal 2) ∷ [];
}

own_prevote :
    (hash : Text)
    → (signature : Text) × (sign_vote toy key (ballot setup toy_ledger prevote (some hash) 6 1)
        ≡ some (prevote_for setup toy_ledger hash 6 1 signature))
unfolding sign_vote get_vote_bytes write_be Crypto.sign same get_address low_bytes to_hex from_hex
own_prevote hash = (_, refl)

first_verified :
    verify_vote toy
      (prevote_for setup toy_ledger (b'a' ∷ b'1' ∷ []) 6 1 (own_prevote (b'a' ∷ b'1' ∷ [])).0)
    ≡ true
unfolding own_prevote verify_vote sign_vote get_vote_bytes write_be Crypto.sign Crypto.recover same
    get_address low_bytes to_hex from_hex
first_verified = refl

torn_node-IsTorn : IsTorn setup toy_ledger 6 1 torn_node
unfolding get_proposer same is_proposal bucket get_quorum has_slashed get_address low_bytes to_hex
torn_node-IsTorn = record {
  going = refl;
  above = refl;
  later = refl;
  proposer = with_power (4 ∷ []);
  proposer_eq = refl;
  follower = refl;
  hash1 = b'a' ∷ b'1' ∷ [];
  hash2 = b'a' ∷ b'2' ∷ [];
  different = refl;
  block1 = proposal 1;
  block2 = proposal 2;
  pending = refl;
  first = refl;
  second = refl;
  no_votes = refl;
  signature1 = (own_prevote (b'a' ∷ b'1' ∷ [])).0;
  signature2 = (own_prevote (b'a' ∷ b'2' ∷ [])).0;
  signed1 = (own_prevote (b'a' ∷ b'1' ∷ [])).1;
  signed2 = (own_prevote (b'a' ∷ b'2' ∷ [])).1;
  verified1 = first_verified;
  small = refl;
  not_banned = refl;
  idle = refl;
}

start_round_bans_self_example :
    (v w : Vote) × (sign_vote toy key
        (ballot setup toy_ledger prevote (some (b'a' ∷ b'1' ∷ [])) 6 1)
      ≡ some v)
    × (sign_vote toy key (ballot setup toy_ledger prevote (some (b'a' ∷ b'2' ∷ [])) 6 1) ≡ some w)
    × (v.block_hash ≡ some (b'a' ∷ b'1' ∷ []))
    × (w.block_hash ≡ some (b'a' ∷ b'2' ∷ []))
    × (sent (start_round setup toy_ledger 6 1 torn_node).effects
        ≡ sent torn_node.effects ++ v ∷ w ∷ [])
    × (has_slashed
          (my_address setup)
          (run setup toy_ledger
            (task_resumed (pos 0) [] 0 ∷ task_resumed (pos 0) [] 0 ∷ [])
            (start_round setup toy_ledger 6 1 torn_node)).slashed_validators
        ≡ true)
unfolding torn_node-IsTorn
start_round_bans_self_example =
    start_round_bans_self setup toy_ledger 6 1 torn_node (pos 0) [] 0 torn_node-IsTorn

abbrev contract : VerifiedContract
contract = record {
  address = ox ++ replicate 40 b'a';
  name = 1 ∷ [];
  compiler_version = none;
  source = 2 ∷ [];
  abi = 3 ∷ [];
  verified_at = 7;
}

contract_added :
    (r : VerifiedContract) × (m : Registry) × (add_contract (λ t. t) contract [] ≡ some (r, m))
unfolding add_contract key_of strip_0x
contract_added = (_, _, refl)

add_contract-get_example :
    IsRegistry (λ t. t) contract_added.1
    × (load (λ t. t) (saved contract_added.1) [] ≡ contract_added.1)
    × (get_contract (λ t. t) contract.address (load (λ t. t) (saved contract_added.1) [])
        ≡ some contract_added.0)
add_contract-get_example =
    add_contract-get (λ t. t) contract contract_added.0 [] contract_added.1 (λ x. refl) tt
      contract_added.2

-- The account of a contract whose code is one byte.
abbrev deployed : ToyDb
deployed = (
  (from_hex (replicate 40 b'a'), replicate 96 0 ++ replicate 32 9)
      ∷ (b'C' ∷ b'O' ∷ b'D' ∷ b'E' ∷ b':' ∷ replicate 32 9, 5 ∷ [])
      ∷ [],
  [],
)

abbrev verify_body : VerifyBody
verify_body = record {
  address = ox ++ replicate 40 b'a';
  name = text (1 ∷ []);
  compiler_version = none;
  source = text (2 ∷ []);
  abi = some (3 ∷ []);
  expected_bytecode = text (ox ++ b'0' ∷ b'5' ∷ []);
}

contract_verified :
    (r : VerifiedContract) × (m : Registry) × (verify_contract
        (λ t. t)
        toy_trie
        verify_body
        7
        deployed
        []
      ≡ (registered r, m))
unfolding verify_contract add_contract key_of strip_0x is_valid_address address_regex bytecode_error
    get_account get_code lookup same from_hex to_hex deserialize hex_value
contract_verified = (_, _, refl)

verify_contract_checked_example :
    IsDeployed (λ t. t) toy_trie (strip_0x verify_body.address) (ox ++ b'0' ∷ b'5' ∷ []) deployed
    × (contract_verified.0.verified_at ≡ 7)
verify_contract_checked_example =
    verify_contract_checked (λ t. t) toy_trie verify_body 7 deployed [] contract_verified.1
      contract_verified.0 (ox ++ b'0' ∷ b'5' ∷ []) refl contract_verified.2
