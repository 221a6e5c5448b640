-- ===== src/Vm/Staking/Defs.antt =====
-- The commands STAKE and UNSTAKE, and the list of all stakers.
use bery_bc.Base.{
  Bool, true, false, Option, none, some, List, [], ◌∷◌, same, ltb, ◌==◌, if◌then◌else◌,
}
use bery_bc.Base.Int.{ℤ, pos, ◌+ℤ◌, ◌-ℤ◌, ltb_ℤ, eqb_ℤ}
use bery_bc.Base.TextMap.{TextMap, lookup, insert}
use bery_bc.Bytes.{Bytes, Text, to_hex, from_hex, of_be, to_string}
use bery_bc.Crypto.{Crypto}
use bery_bc.Core.Transaction.{Transaction}
use bery_bc.Vm.Task.{
  staking_missing_data, unstake_missing_amount, insufficient_stake, insolvent, unknown_command,
  Result, ok, err, ◌>>◌, throw_if, Parties, receiver_of, set_sender, set_receiver,
}

-- `JSON.stringify` and `JSON.parse` on lists of texts, as UTF-8; `none` where the parser throws.
pub record JsonLists : Type 0 where
  pub stringify : List Text → Bytes
  pub parse : Bytes → Option (List Text)

-- 'all_stakers'
abbrev pub all_stakers_key : Bytes
all_stakers_key = b'a' ∷ b'l' ∷ b'l' ∷ b'_' ∷ b's' ∷ b't' ∷ b'a' ∷ b'k' ∷ b'e' ∷ b'r' ∷ b's' ∷ []

-- `<` on texts
unfoldable pub text_lt : Text → Text → Bool
text_lt xs [] = false
text_lt [] (y ∷ ys) = true
text_lt (x ∷ xs) (y ∷ ys) = if x == y then text_lt xs ys else ltb x y

unfoldable pub place : Text → List Text → List Text
unfolding text_lt
place x [] = x ∷ []
place x (y ∷ ys) = if text_lt y x then y ∷ place x ys else x ∷ y ∷ ys

-- `list.sort()`
unfoldable pub sort : List Text → List Text
unfolding place
sort [] = []
sort (x ∷ xs) = place x (sort xs)

-- `list.includes(x)`
unfoldable pub includes : Text → List Text → Bool
includes x [] = false
includes x (y ∷ ys) = if same x y then true else includes x ys

-- `list.push(x)`
unfoldable pub push : Text → List Text → List Text
push x [] = x ∷ []
push x (y ∷ ys) = y ∷ push x ys

-- `list.splice(list.indexOf(x), 1)`, for a text of the list.
unfoldable pub splice_out : Text → List Text → List Text
splice_out x [] = []
splice_out x (y ∷ ys) = if same x y then ys else y ∷ splice_out x ys

-- What the commands read of the storage and of the transaction.
pub record StakeState : Type 0 where
  pub sender_key : Text
  pub stakers : List Text
  pub stake : ℤ

-- The storage changes of a command, with the accounts.
pub record StakeResult : Type 0 where
  pub changes : TextMap Text
  pub parties : Parties

module _ (c : Crypto) (j : JsonLists) where
  abbrev nonempty : Option Text → Option Text
  nonempty none = none
  nonempty (some []) = none
  nonempty (some (x ∷ xs)) = some (x ∷ xs)

  -- The list of stakers; an entry that does not parse counts as empty.
  unfoldable pub read_stakers : TextMap Text → List Text
  read_stakers storage = elim (nonempty (lookup (to_hex (c.keccak_256 all_stakers_key)) storage)) [
    | none ↦ []
    | some text ↦ elim (j.parse (from_hex text)) [ none ↦ [] | some l ↦ l ]
  ]

  -- `new BN(storage[senderKeyHash] || '00', 'hex')`; the texts of the storage are whole bytes.
  unfoldable pub read_stake : Text → TextMap Text → ℤ
  read_stake sender_key storage =
      elim (nonempty (lookup (to_hex (c.keccak_256 (from_hex sender_key))) storage)) [
        | none ↦ pos 0
        | some text ↦ pos (of_be (from_hex text))
      ]

  unfoldable pub read_state : Transaction → TextMap Text → StakeState
  unfolding read_stakers read_stake
  read_state t storage =
      let key = to_hex (from_hex t.from) in
      record { sender_key = key; stakers = read_stakers storage; stake = read_stake key storage }

  -- The new list of stakers, under its raw key.
  unfoldable pub write_stakers : List Text → TextMap Text → TextMap Text
  write_stakers stakers changes =
      insert (to_hex all_stakers_key) (to_hex (j.stringify (sort stakers))) changes

  -- Command 0x01
  unfoldable pub stake : Transaction → StakeState → Parties → Result StakeResult
  unfolding write_stakers
  stake t s p =
      let changes : TextMap Text = insert s.sender_key (to_string 16 (s.stake +ℤ t.value)) [] in
      ok (record {
        changes =
            if includes t.from s.stakers
            then changes
            else write_stakers (push t.from s.stakers) changes;
        parties = p;
      })

  -- The storage changes of an unstake.
  unfoldable pub unstake_changes : Transaction → StakeState → ℤ → TextMap Text
  unfolding write_stakers
  unstake_changes t s new_stake =
      if eqb_ℤ new_stake (pos 0)
      then (if includes t.from s.stakers
          then write_stakers (splice_out t.from s.stakers) (insert s.sender_key [] [])
          else insert s.sender_key [] [])
      else insert s.sender_key (to_string 16 new_stake) []

  -- Command 0x02, with the amount in the bytes after it.
  unfoldable pub unstake : Transaction → Bytes → StakeState → Parties → Result StakeResult
  unfolding unstake_changes
  unstake t [] s p = err unstake_missing_amount
  unstake t (b ∷ bs) s p = do
    let amount = pos (of_be (b ∷ bs))
    throw_if (ltb_ℤ s.stake amount) insufficient_stake
    throw_if (ltb_ℤ (receiver_of p).balance amount) insolvent
    let p' = set_receiver (record (receiver_of p) { balance = (receiver_of p).balance -ℤ amount }) p
    ok (record {
      changes = unstake_changes t s (s.stake -ℤ amount);
      parties = set_sender (record (p'.sender) { balance = p'.sender.balance +ℤ amount }) p';
    })

  unfoldable pub run_command : Transaction → Bytes → StakeState → Parties → Result StakeResult
  unfolding stake unstake
  run_command t [] s p = err staking_missing_data
  run_command t (command ∷ argument) s p =
      if command == 1
      then stake t s p
      else if command == 2
      then unstake t argument s p
      else err unknown_command
