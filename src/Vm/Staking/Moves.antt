-- ===== src/Vm/Staking/Moves.antt =====
-- What a staking command may do to the stakes and the balances.
use bery_bc.Base.{
  ℕ, ◌+◌, ◌≤◌, ◌<◌, ◌≡◌, refl, ◌∙◌, Bool, true, false, none, some, List, [], ◌∷◌, ◌⊎◌, same, arith,
  if◌then◌else◌,
}
use bery_bc.Base.Int.{pos, ltb_ℤ}
use bery_bc.Base.TextMap.{TextMap, lookup, insert, lookup-insert_self, lookup-insert_ne}
use bery_bc.Bytes.{Bytes, Text, to_hex, of_be, to_string}
use bery_bc.Crypto.{Crypto}
use bery_bc.Vm.Task.{
  staking_missing_data, unknown_command, Error, insolvent, insufficient_stake,
  unstake_missing_amount, throw_if, ◌>>◌, Result, ok, err, receiver_of,
}
use bery_bc.Vm.Staking.Defs.{JsonLists, all_stakers_key, StakeResult, write_stakers}

-- The text that stands for a stake: its digits, or nothing for no stake.
abbrev pub IsStakeText : ℕ → Text → Type 0
IsStakeText n x = (x ≡ to_string 16 (pos n)) ⊎ ((x ≡ []) × (n ≡ 0))

pub by_throw {ℓ ℓ'} :
    {A : Type ℓ} {m : Result A} (P : Result A → Type ℓ') (b : Bool) (error : Error)
    → (b ≡ true → P (err error))
    → (b ≡ false → P m)
    → P (throw_if b error >> m)
by_throw P true error f g = f refl
by_throw P false error f g = g refl

pub enough : (m a : ℕ) → ltb_ℤ (pos m) (pos a) ≡ false → a ≤ m
enough m a e = ground arith

pub too_little : (m a : ℕ) → ltb_ℤ (pos m) (pos a) ≡ true → m < a
too_little m a e = ground arith

pub missing_ne : unstake_missing_amount ≡ insolvent → ⊥
missing_ne e = cc

pub poor_ne : insufficient_stake ≡ insolvent → ⊥
poor_ne e = cc

-- The keys of other stakers, each with its stake.
abbrev pub total : List (Text × ℕ) → ℕ
total [] = 0
total ((key, n) ∷ others) = n + total others

-- Keys that are neither the sender's nor the list's.
abbrev pub AreOthers : Text → List (Text × ℕ) → Type 0
AreOthers sender_key [] = Unit {0}
AreOthers sender_key ((key, n) ∷ others) =
    (same key sender_key ≡ false)
    × (same key (to_hex all_stakers_key) ≡ false)
    × AreOthers sender_key others

-- No entry of these keys is written.
abbrev pub AreKept : TextMap Text → List (Text × ℕ) → Type 0
AreKept changes [] = Unit {0}
AreKept changes ((key, n) ∷ others) = (lookup key changes ≡ none) × AreKept changes others

-- The new stake of a sender with the stake `st` and the value `v` paid in, and what the command pays back:
-- command 1 adds the value to the stake, command 2 takes the amount of its argument off it.
abbrev pub IsMove : Bytes → ℕ → ℕ → ℕ → ℕ → Type 0
IsMove [] st v new paid = ⊥
IsMove (command ∷ argument) st v new paid =
    ((command ≡ 1) × (new ≡ st + v) × (paid ≡ 0))
    ⊎ ((command ≡ 2) × (new + of_be argument ≡ st) × (paid ≡ of_be argument))

-- Why a command is refused: it is missing or unknown, or it takes off nothing or more than the stake.
abbrev pub IsRefused : Bytes → ℕ → Error → Type 0
IsRefused [] st e = e ≡ staking_missing_data
IsRefused (command ∷ argument) st e =
    ((command ≡ 2) × (argument ≡ []) × (e ≡ unstake_missing_amount))
    ⊎ ((command ≡ 2) × (st < of_be argument) × (e ≡ insufficient_stake))
    ⊎ ((¬ (command ≡ 1)) × (¬ (command ≡ 2)) × (e ≡ unknown_command))

module _ (c : Crypto) (j : JsonLists) (others : List (Text × ℕ)) where
  -- The storage records the new stake of the sender and keeps those of all others, what is paid back goes
  -- from the staking account to the sender, and the balance that is left covers all the stakes.
  pub record IsCovered (sender_key : Text) (payload : Bytes) (st v rb sb : ℕ) (r : StakeResult)
      : Type 0 where
    pub stake : ℕ
    pub paid : ℕ
    pub moved : IsMove payload st v stake paid
    pub written : Text
    pub recorded : lookup sender_key r.changes ≡ some written
    pub is_stake : IsStakeText stake written
    pub kept : AreKept r.changes others
    pub balance : ℕ
    pub balance_eq : (receiver_of r.parties).balance ≡ pos balance
    pub paid_from : balance + paid ≡ rb
    pub paid_to : r.parties.sender.balance ≡ pos (sb + paid)
    pub covered : total others + stake ≤ balance

  -- A command that goes through moves the stake and leaves all stakes covered; one that does not is refused
  -- for a reason, and none says that the account is insolvent.
  abbrev pub Safe : Text → Bytes → (st v rb sb : ℕ) → Result StakeResult → Type 0
  Safe sender_key payload st v rb sb (ok r) = IsCovered sender_key payload st v rb sb r
  Safe sender_key payload st v rb sb (err e) = IsRefused payload st e × (¬ (e ≡ insolvent))

  pub recorded_besides :
      (stakers : List Text) (key x : Text)
      → same key (to_hex all_stakers_key) ≡ false
      → lookup key (write_stakers c j stakers (insert key x [])) ≡ some x
  unfolding write_stakers
  recorded_besides stakers key x other =
      lookup-insert_ne key (to_hex all_stakers_key) _ (insert key x []) other
      ∙ lookup-insert_self key x []

  pub recorded_if :
      (b : Bool) (stakers : List Text) (key x : Text)
      → same key (to_hex all_stakers_key) ≡ false
      → lookup key (if b then insert key x [] else write_stakers c j stakers (insert key x []))
        ≡ some x
  recorded_if true stakers key x other = lookup-insert_self key x []
  recorded_if false stakers key x other = recorded_besides stakers key x other

  absent_one :
      (key sender_key x : Text)
      → same key sender_key ≡ false
      → lookup key (insert sender_key x []) ≡ none
  unfolding insert lookup
  absent_one key sender_key x other = rw (other) refl

  absent_both :
      (b : Bool) (stakers : List Text) (key sender_key x : Text)
      → same key sender_key ≡ false
      → same key (to_hex all_stakers_key) ≡ false
      → lookup key
          (if b then insert sender_key x [] else write_stakers c j stakers (insert sender_key x []))
        ≡ none
  unfolding write_stakers
  absent_both true stakers key sender_key x other list = absent_one key sender_key x other
  absent_both false stakers key sender_key x other list =
      lookup-insert_ne key (to_hex all_stakers_key) _ (insert sender_key x []) list
      ∙ absent_one key sender_key x other

  pub kept_if :
      (b : Bool) (stakers : List Text) (sender_key x : Text) (os : List (Text × ℕ))
      → AreOthers sender_key os
      → AreKept
          (if b then insert sender_key x [] else write_stakers c j stakers (insert sender_key x []))
          os
  kept_if b stakers sender_key x [] h = tt
  kept_if b stakers sender_key x ((key, n) ∷ os) (other, list, hs) =
      (absent_both b stakers key sender_key x other list, kept_if b stakers sender_key x os hs)
