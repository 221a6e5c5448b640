-- ===== src/Api/LookupLaws.antt =====
-- What the look-ups of stakes answer after the executor has written the changes of a STAKE command.
use bery_bc.Base.{
  ℕ, ◌≡◌, refl, true, none, some, [], ◌∷◌, ◌++◌, length, ◌==◌, ◌%◌, ◌/◌, if◌then◌else◌, arith,
}
use bery_bc.Base.Int.{pos, ◌+ℤ◌}
use bery_bc.Bytes.{Bytes, Text, from_hex, of_be, to_string, digits}
use bery_bc.Base.TextMap.{insert}
use bery_bc.Bytes.DigitLaws.{of_be-from_hex-to_string}
use bery_bc.Core.Transaction.{Transaction, staking_address}
use bery_bc.Crypto.{Crypto}
use bery_bc.State.Account.{IsStorable}
use bery_bc.State.Manager.{Trie, IsLawful, get_account}
use bery_bc.State.Manager.StorageLaws.{KeepsStorage, get-put_contract_storage}
use bery_bc.Storage.Blocks.{strip_0x}
use bery_bc.Storage.Logs.{ox}
use bery_bc.Vm.Executor.{Env, put_storage}
use bery_bc.Vm.Staking.{JsonLists, StakeState, StakeResult, includes, stake}
use bery_bc.Vm.Task.{Parties, ok}
use bery_bc.Api.Fields.{is_valid_address}
use bery_bc.Api.Lookups.{found, stake_number, stake_at, find_stake}

stake_number-bytes :
    (b : Bytes) → stake_number (if length b == 0 then none else some b) ≡ pos (of_be b)
unfolding of_be
stake_number-bytes [] = refl
stake_number-bytes (x ∷ xs) = ground arith

module _ (tr : Trie) (law : IsLawful tr) (keeps : KeepsStorage tr) (c : Crypto) (env : Env tr)
    (j : JsonLists) where
  -- A staker of the list who stakes more is answered with the new stake if this has an even number of
  -- hexadecimal digits, and with a sixteenth of it if not: the worker's text of the stake is not padded.
  pub find_stake-stake :
      (param : Text) (t : Transaction) (s : StakeState) (p : Parties) (n : ℕ) (d : tr.Db)
      → is_valid_address (strip_0x param) ≡ true
      → from_hex s.sender_key ≡ from_hex (strip_0x param)
      → includes t.from s.stakers ≡ true
      → s.stake +ℤ t.value ≡ pos n
      → IsStorable (get_account tr d staking_address)
      → (r : StakeResult) × (d' : tr.Db) × (stake c j t s p ≡ ok r)
        × (put_storage tr c env staking_address r.changes d ≡ some d')
        × (find_stake tr param d'
            ≡ found (record {
              address = ox ++ strip_0x param;
              stake = to_string 10 (pos (if length (digits 16 n) % 2 == 0 then n else n / 16));
            }))
  unfolding stake put_storage find_stake stake_at insert
  find_stake-stake param t s p n d valid key listed sum storable =
      let (d', written, read) =
        get-put_contract_storage tr law keeps staking_address (from_hex (strip_0x param))
          (from_hex (to_string 16 (pos n))) d storable in
      (
        record { changes = (s.sender_key, to_string 16 (s.stake +ℤ t.value)) ∷ []; parties = p },
        d',
        rw listed refl,
        rw (sum, key, written) refl,
        rw
            (
              valid,
              read,
              stake_number-bytes (from_hex (to_string 16 (pos n))),
              of_be-from_hex-to_string n,
            )
            refl,
      )
