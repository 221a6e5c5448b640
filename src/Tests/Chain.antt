-- ===== src/Tests/Chain.antt =====
-- Tests of the genesis, the EVM adapter, the stakes and the rewards.
use mathlib.Core.List.{Memᴰ}
use bery_bc.Base.{ℕ, ◌≡◌, refl, true, none, some, List, [], ◌∷◌, same, replicate, arith}
use bery_bc.Base.Int.{pos}
use bery_bc.Base.TextMap.{TextMap, lookup, insert}
use bery_bc.Bytes.{Text, from_hex, to_hex}
use bery_bc.Consensus.Node.{Validator}
use bery_bc.Consensus.Round.{with_power}
use bery_bc.Crypto.Toy.{toy}
use bery_bc.Evm.{Machine, MachineAccount, machine_env}
use bery_bc.Evm.Frame.{execute_evm_call-frame}
use bery_bc.Evm.Writes.{IsSeparate}
use bery_bc.Launch.Genesis.{address_of, part_of, funded, seed_genesis}
use bery_bc.Launch.GenesisLaws.{IsCommitting, seed_genesis_funds}
use bery_bc.State.Account.{Account, IsStorable, deserialize, empty_account}
use bery_bc.State.Manager.{Trie, IsLawful, get_account}
use bery_bc.State.Manager.Toy.{toy_trie, toy_trie-IsLawful, ToyDb}
use bery_bc.State.Storable.{deserialize-IsStorable}
use bery_bc.Vm.Executor.{Env, call_target, execute_evm_call}
use bery_bc.Vm.Staking.{JsonLists, StakeState, run_command}
use bery_bc.Vm.Staking.Moves.{Safe}
use bery_bc.Vm.Staking.Solvency.{run_command-Safe}
use bery_bc.Tests.Data.{tx_of}
use bery_bc.Tests.Ledger.{empty_db, toy_env}
use bery_bc.Storage.Bloom.{drop_0x}

toy_trie-IsCommitting : IsCommitting toy_trie
toy_trie-IsCommitting = record { commit-checkpoint = λ d. (d, refl, λ x. refl) }

abbrev two : List Validator
two = with_power (b'c' ∷ b'1' ∷ []) ∷ with_power (b'c' ∷ b'2' ∷ []) ∷ []

seed_genesis_funds_example :
    (d' : ToyDb) × (seed_genesis toy_trie toy 9 two empty_db ≡ some d')
    × ((u : Validator)
        → Memᴰ u two
        → get_account toy_trie d' (address_of toy u) ≡ funded (part_of 9 2))
    × (seed_genesis toy_trie toy 9 two d' ≡ some d')
unfolding get_account address_of lookup
seed_genesis_funds_example =
    seed_genesis_funds toy_trie toy_trie-IsLawful toy_trie-IsCommitting toy 9
      (with_power (b'c' ∷ b'1' ∷ [])) (with_power (b'c' ∷ b'2' ∷ []) ∷ []) empty_db (omega arith)
      (omega arith) (refl, refl)

-- The trie of the tests, with code and contract storage thrown away.
abbrev bare_trie : Trie
bare_trie = record toy_trie {
  raw_get = λ d k. none;
  raw_put = λ k v d. d;
  storage_put = λ root k v d. (d, replicate 32 1);
}

bare_trie-IsLawful : IsLawful bare_trie
bare_trie-IsLawful = record {
  get-put_self = toy_trie-IsLawful.get-put_self;
  get-put_ne = toy_trie-IsLawful.get-put_ne;
  revert-checkpoint = toy_trie-IsLawful.revert-checkpoint;
  revert-put = toy_trie-IsLawful.revert-put;
}

bare_trie-IsSeparate : IsSeparate bare_trie
bare_trie-IsSeparate = record {
  get-raw_put = λ x k v d. refl;
  get-storage_put = λ x k v root d. refl;
}

-- A VM that remembers accounts and pays one unit to the recipient.
abbrev toy_machine : Machine
toy_machine = record {
  Vm = TextMap MachineAccount;
  create_vm = λ chain_id. [];
  is_address = λ address. true;
  put_vm_account = λ address a vm. insert address a vm;
  get_vm_account = λ vm address. lookup address vm;
  put_vm_code = λ address code vm. vm;
  get_vm_code = λ vm address. 5 ∷ [];
  put_vm_storage = λ address k v vm. some vm;
  dump_vm_storage = λ vm address. some ((b'0' ∷ b'1' ∷ [], b'0' ∷ b'2' ∷ []) ∷ []);
  run_call = λ r vm. some (
    insert r.to (record { balance = r.value; nonce = pos 1 }) vm,
    record { return_value = []; gas_used = 30; logs = [] },
  );
  run_code = λ r vm. none;
}

abbrev bare_env : Env bare_trie
bare_env = record {
  worker = toy_env.worker;
  evm_call = λ e d. (d, none);
  evm_create = λ e d. (d, none);
}

execute_evm_call-frame_example :
    get_account bare_trie
      (execute_evm_call bare_trie toy
        (machine_env bare_trie toy toy_machine 1 bare_env)
        (tx_of (b'c' ∷ b'1' ∷ []))
        empty_db).0
      (b'c' ∷ b'2' ∷ [])
    ≡ get_account bare_trie empty_db (b'c' ∷ b'2' ∷ [])
unfolding same from_hex call_target drop_0x
execute_evm_call-frame_example =
    execute_evm_call-frame bare_trie toy toy_machine bare_env 1 (tx_of (b'c' ∷ b'1' ∷ []))
      (b'c' ∷ b'2' ∷ []) empty_db bare_trie-IsLawful bare_trie-IsSeparate refl refl

deserialize-IsStorable_example : IsStorable (deserialize (9 ∷ 200 ∷ []))
deserialize-IsStorable_example =
    deserialize-IsStorable (9 ∷ 200 ∷ []) (omega arith, (omega arith, tt))

abbrev no_json : JsonLists
no_json = record { stringify = λ l. 1 ∷ []; parse = λ t. none }

abbrev staked : StakeState
staked = record { sender_key = b'c' ∷ b'1' ∷ []; stakers = (b'c' ∷ b'1' ∷ []) ∷ []; stake = pos 40 }

abbrev staking_account : Account
staking_account = record empty_account { balance = pos 100 }

-- Another staker has 50, and 40 of the sender's 40 are paid back.
abbrev other_stakers : List (Text × ℕ)
other_stakers = (b'c' ∷ b'9' ∷ [], 50) ∷ []

run_command-Safe_example :
    Safe toy no_json other_stakers (b'c' ∷ b'1' ∷ []) (2 ∷ 40 ∷ []) 40 5 100 0 (
      run_command toy no_json
        (tx_of (b'c' ∷ b'1' ∷ []))
        (2 ∷ 40 ∷ [])
        staked
        (record { sender = empty_account; receiver = some staking_account }))
unfolding same to_hex
run_command-Safe_example =
    run_command-Safe toy no_json other_stakers (tx_of (b'c' ∷ b'1' ∷ [])) (2 ∷ 40 ∷ []) staked
      empty_account staking_account 40 5 100 0 refl refl refl refl refl (refl, refl, tt)
      (omega arith)
