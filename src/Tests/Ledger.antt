-- ===== src/Tests/Ledger.antt =====
-- Tests of the accounts, the store, the worker and the executor.
use bery_bc.Base.{
  ◌≡◌, inl, ◌+◌, ◌-◌, ◌*◌, refl, false, Option, none, some, [], ◌∷◌, ◌++◌, same, arith, replicate,
}
use bery_bc.Base.Int.{pos}
use bery_bc.Bytes.{Bytes, Text, to_hex, from_hex}
use bery_bc.Crypto.Toy.{toy, toy-IsSound, low_bytes}
use bery_bc.State.Account.{Account, serialize, deserialize, zero_hash}
use bery_bc.State.Manager.{get_account, get_code}
use bery_bc.State.Manager.Toy.{toy_trie, ToyDb}
use bery_bc.Base.TextMap.{lookup}
use bery_bc.Bytes.{to_array_like, of_be}
use bery_bc.Core.Transaction.Json.{to_json}
use bery_bc.Core.Transaction.{Transaction, hash, staking_address}
use bery_bc.Core.Transaction.Signing.{verify-sign}
use bery_bc.Vm.Worker.{charge, run_transaction}
use bery_bc.Vm.Worker.Replay.{charge_twice}
use bery_bc.Vm.Worker.Transfer.{IsTransfer, IsCovered, Carries, transfer_moves}
use bery_bc.Vm.Staking.{JsonLists}
use bery_bc.Vm.Wasm.{Run}
use bery_bc.Crypto.{get_address}
use bery_bc.Crypto
use bery_bc.Core.Transaction
use bery_bc.Tests.Core.{signed, signed_tx, own_tx}
use bery_bc.Vm.Worker.Pay.{holding, IsUserTx}
use bery_bc.Vm.Task.{ok, err, thrown, TxTask}
use bery_bc.Vm.Executor.{
  Env, answers, process_tx, execute_block, is_creation, code_of, BlockRun, Outcome,
}
use bery_bc.Vm.Executor.Forgery.{evm_call_unsigned, IsCall}
use bery_bc.Vm.Executor.Fees.{execute_block-Accounted, Accounted}
use bery_bc.Tests.Data.{tx_of, coinbase_tx, key, key-IsKeyPair}

abbrev hash32 : Bytes
hash32 = replicate 32 3

abbrev rich : Account
rich = holding 7 1000000 hash32 hash32

abbrev pub empty_db : ToyDb
empty_db = ([], [])

abbrev address : Text
address = b'a' ∷ b'1' ∷ []

abbrev user_tx : Transaction
user_tx = record (tx_of address) { nonce = 8 }

user_tx-IsUserTx : IsUserTx user_tx 5 2
unfolding same
user_tx-IsUserTx = record { user = refl; value_nat = refl; price_nat = refl }

-- A worker that always fails, and calls that use 100 units of gas.
abbrev pub toy_env : Env toy_trie
toy_env = record {
  worker = λ task. err thrown;
  evm_call = λ call d. (d, some (record { gas_used = 100; logs = []; runtime_code = [] }));
  evm_create = λ call d. (d, none);
}

execute_block-Accounted_run :
    (d' : ToyDb) × (b : BlockRun) × (execute_block toy_trie toy toy_env
        ((coinbase_tx, answers) ∷ [])
        empty_db
      ≡ some (d', b))
unfolding execute_block same get_account lookup serialize to_array_like to_json hash
execute_block-Accounted_run = (_, _, refl)

execute_block-Accounted_example : Accounted execute_block-Accounted_run.1
execute_block-Accounted_example =
    execute_block-Accounted toy_trie toy toy_env ((coinbase_tx, answers) ∷ []) empty_db
      execute_block-Accounted_run.0 execute_block-Accounted_run.1 execute_block-Accounted_run.2

-- A contract at the address of the receiver.
abbrev contract_db : ToyDb
contract_db = (
  ((178 ∷ []), replicate 31 0 ++ 7 ∷ replicate 32 0 ++ hash32 ++ hash32)
      ∷ ((b'C' ∷ b'O' ∷ b'D' ∷ b'E' ∷ b':' ∷ hash32), 1 ∷ [])
      ∷ [],
  [],
)

user_tx-IsCall : IsCall toy_trie toy toy_env user_tx contract_db
unfolding same get_account lookup is_creation code_of deserialize from_hex get_code
user_tx-IsCall = (refl, refl, (_, refl))

evm_call_unsigned_example :
    (d' : ToyDb) × (o o' : Outcome) × (process_tx toy_trie toy toy_env answers user_tx contract_db
      ≡ some (d', o))
    × (process_tx toy_trie toy toy_env answers
          (record user_tx { signature = some (1 ∷ []) })
          contract_db
        ≡ some (d', o'))
evm_call_unsigned_example =
    evm_call_unsigned toy_trie toy toy_env answers user_tx (some (1 ∷ [])) contract_db
      user_tx-IsCall

-- No list is ever read.
abbrev toy_lists : JsonLists
toy_lists = record { stringify = λ l. []; parse = λ b. none }

abbrev no_module : Bytes → Option Run
no_module b = none

abbrev sender_bytes : Bytes
sender_bytes = replicate 32 0 ++ (replicate 28 0 ++ (0 ∷ 1 ∷ 0 ∷ 0 ∷ [])) ++ hash32 ++ hash32

abbrev task : TxTask
task = record {
  tx_data = record {
    from = [];
    to = [];
    value = [];
    nonce = 0;
    gas_limit = 0;
    gas_price = none;
    payload = none;
    signature = none;
    hash = [];
    eth_hash = none;
  };
  sender_account_data = some sender_bytes;
  receiver_account_data = none;
  code = none;
  is_create = false;
  storage = [];
  gas_limit = some 30000;
}

task-IsTransfer : IsTransfer task signed_tx 30000
unfolding signed Transaction.sign same get_address to_hex low_bytes Crypto.sign
task-IsTransfer = record {
  no_create = refl;
  no_code = refl;
  to_other = refl;
  not_staking = refl;
  gas_limit = refl;
  gas_enough = omega arith;
}

signed_tx-IsUserTx : IsUserTx signed_tx 5 2
unfolding signed Transaction.sign same get_address to_hex low_bytes Crypto.sign
signed_tx-IsUserTx = record { user = refl; value_nat = refl; price_nat = refl }

read_sender : deserialize sender_bytes ≡ holding 0 65536 hash32 hash32
unfolding deserialize of_be
read_sender = refl

task-IsCovered :
    IsCovered toy toy_lists no_module task signed_tx 30000 5 2 0 65536 0 0 hash32 hash32 zero_hash
      zero_hash
unfolding signed Transaction.sign
task-IsCovered = record {
  transfer = task-IsTransfer;
  user_tx = signed_tx-IsUserTx;
  signed = (verify-sign toy toy-IsSound key key-IsKeyPair own_tx signed_tx signed.1).0;
  sender_account = read_sender;
  receiver_account = refl;
  nonce_fits = omega arith;
  nonce_matches = inl refl;
  covered = omega arith;
  sender_fits = omega arith;
  receiver_nonce_fits = omega arith;
  receiver_fits = omega arith;
  hash_lengths = (refl, refl, refl, refl);
}

transfer_moves_example :
    Carries toy toy_lists no_module
      (run_transaction toy toy_lists no_module task signed_tx)
      signed_tx
      (holding 1 (65536 - (5 + 21000 * 2)) hash32 hash32)
      (holding 0 5 zero_hash zero_hash)
      (pos 21000)
transfer_moves_example =
    transfer_moves toy toy_lists no_module task signed_tx 30000 5 2 0 65536 0 0 hash32 hash32
      zero_hash zero_hash task-IsCovered

charge_twice_example :
    (charge user_tx 30000 (holding 7 1000000 hash32 hash32)
      ≡ ok (holding (7 + 1) (1000000 - (5 + 30000 * 2)) hash32 hash32))
    × (charge user_tx 30000 (holding (7 + 1) (1000000 - (5 + 30000 * 2)) hash32 hash32)
        ≡ ok (holding (7 + 1 + 1) (1000000 - (5 + 30000 * 2) - (5 + 30000 * 2)) hash32 hash32))
charge_twice_example =
    charge_twice user_tx 5 2 30000 7 1000000 hash32 hash32 user_tx-IsUserTx (omega arith) refl
      (omega arith)
