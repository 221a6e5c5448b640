-- ===== src/Tests/Stakes.antt =====
-- Tests of the look-ups of stakes, on a store with one storage trie.
use bery_bc.Base.{◌≡◌, refl, none, some, [], ◌∷◌, ◌++◌, replicate, same}
use bery_bc.Base.Int.{pos, ◌+ℤ◌}
use bery_bc.Base.TextMap.{TextMap, lookup, insert, lookup-insert_self}
use bery_bc.Bytes.{Bytes, Text, to_string, digits, hex_value}
use bery_bc.Core.Transaction.{Transaction, staking_address}
use bery_bc.Crypto.Toy.{toy}
use bery_bc.State.Account.{empty_account}
use bery_bc.State.Manager.{Trie, IsLawful, get_account}
use bery_bc.State.Manager.StorageLaws.{KeepsStorage}
use bery_bc.State.Manager.Toy.{toy_trie, toy_trie-IsLawful, ToyDb, present, present-some}
use bery_bc.State.Storable.{empty-IsStorable}
use bery_bc.Storage.Blocks.{strip_0x}
use bery_bc.Storage.Logs.{ox}
use bery_bc.Vm.Executor.{Env, put_storage}
use bery_bc.Vm.Staking.{JsonLists, StakeState, StakeResult, includes, stake}
use bery_bc.Vm.Task.{Parties, err, thrown, ok}
use bery_bc.Api.Fields.{is_valid_address}
use bery_bc.Api.Lookups.{found, find_stake}
use bery_bc.Api.LookupLaws.{find_stake-stake}
use bery_bc.Tests.Data.{tx_of}

abbrev store : Trie
store = record {
  Db = ToyDb × TextMap Bytes;
  get = λ d k. toy_trie.get d.0 k;
  put = λ k v d. (toy_trie.put k v d.0, d.1);
  root = λ d. 0 ∷ [];
  at_root = λ r d. d;
  checkpoint = λ d. (toy_trie.checkpoint d.0, d.1);
  commit = λ d. elim (toy_trie.commit d.0) [ none ↦ none | some x ↦ some (x, d.1) ];
  revert = λ d. elim (toy_trie.revert d.0) [ none ↦ none | some x ↦ some (x, d.1) ];
  raw_get = λ d k. none;
  raw_put = λ k v d. d;
  storage_get = λ d r k. present (lookup k d.1);
  storage_put = λ r k v d. ((d.0, insert k v d.1), replicate 32 1);
  storage_dump = λ d r. [];
}

store-IsLawful : IsLawful store
store-IsLawful = record {
  get-put_self = λ k v d. toy_trie-IsLawful.get-put_self k v d.0;
  get-put_ne = λ j k v d h. toy_trie-IsLawful.get-put_ne j k v d.0 h;
  revert-checkpoint = λ d. refl;
  revert-put = λ k v d. refl;
}

store-KeepsStorage : KeepsStorage store
unfolding same
store-KeepsStorage = record {
  get-storage_put = λ root key v d k. refl;
  storage_root_length = λ root key v d. refl;
  storage_root_nonzero = λ root key v d. refl;
  storage_get-storage_put =
      λ root key v d k buf. rw (lookup-insert_self key v d.1) (present-some v);
}

abbrev env : Env store
env = record {
  worker = λ task. err thrown;
  evm_call = λ call d. (d, none);
  evm_create = λ call d. (d, none);
}

abbrev lists : JsonLists
lists = record { stringify = λ l. 1 ∷ []; parse = λ t. none }

abbrev staker : Text
staker = replicate 40 b'a'

abbrev more : Transaction
more = record (tx_of staker) { value = pos 56 }

abbrev recorded : StakeState
recorded = record { sender_key = staker; stakers = staker ∷ []; stake = pos 200 }

abbrev parties : Parties
parties = record { sender = empty_account; receiver = some empty_account }

abbrev before : store.Db
before = (([], []), [])

-- A stake of 256 is answered as 16.
find_stake-stake_example :
    (r : StakeResult) × (d' : store.Db) × (stake toy lists more recorded parties ≡ ok r)
    × (put_storage store toy env staking_address r.changes before ≡ some d')
    × (find_stake store (ox ++ staker) d'
        ≡ found (record { address = ox ++ staker; stake = to_string 10 (pos 16) }))
unfolding strip_0x is_valid_address get_account lookup same hex_value includes ◌+ℤ◌ digits
find_stake-stake_example =
    find_stake-stake store store-IsLawful store-KeepsStorage toy env lists (ox ++ staker) more
      recorded parties 256 before refl refl refl refl empty-IsStorable
