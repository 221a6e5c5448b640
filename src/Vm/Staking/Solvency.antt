-- ===== src/Vm/Staking/Solvency.antt =====
-- The stakes that are recorded are covered by the balance of the staking account.
use bery_bc.Base.{
  ℕ, ◌+◌, ◌-◌, ◌≤◌, ◌<◌, ◌≡◌, refl, sym, ◌∙◌, ap, Bool, true, false, some, List, [], ◌∷◌, inl, inr,
  same, arith, Bool-cases, ◌==◌, if◌then◌else◌,
}
use mathlib.Core.Path.{subst}
use bery_bc.Base.Int.{pos, ◌+ℤ◌, ◌-ℤ◌, ltb_ℤ, eqb_ℤ, pos-add, pos-sub}
use bery_bc.Base.TextMap.{lookup, insert, lookup-insert_self}
use bery_bc.Base.Throws.{by_test}
use bery_bc.Bytes.{Bytes, Text, to_hex, of_be, to_string}
use bery_bc.Core.Transaction.{Transaction}
use bery_bc.Crypto.{Crypto}
use bery_bc.State.Account.{Account}
use bery_bc.Vm.Staking.Moves.{
  IsStakeText, by_throw, enough, too_little, missing_ne, poor_ne, total, AreOthers, AreKept,
  IsCovered, Safe, recorded_besides, recorded_if, kept_if,
}
use bery_bc.Vm.Task.{
  insolvent, insufficient_stake, staking_missing_data, unknown_command, Result, Parties,
}
use bery_bc.Vm.Staking.Defs.{
  JsonLists, all_stakers_key, StakeState, StakeResult, includes, splice_out, write_stakers, stake,
  unstake_changes, unstake, run_command,
}

module _ (c : Crypto) (j : JsonLists) (others : List (Text × ℕ)) where
  module _ (t : Transaction) (s : StakeState) (sender staking : Account) (st v rb sb : ℕ)
      (stake_is : s.stake ≡ pos st) (value_is : t.value ≡ pos v)
      (balance_is : staking.balance ≡ pos rb) (sender_is : sender.balance ≡ pos sb)
      (apart : same s.sender_key (to_hex all_stakers_key) ≡ false)
      (are_others : AreOthers s.sender_key others) (covered : total others + st + v ≤ rb) where
    abbrev both : Parties
    both = record { sender = sender; receiver = some staking }

    stake-Safe :
        (argument : Bytes)
        → Safe c j others s.sender_key (1 ∷ argument) st v rb sb (stake c j t s both)
    unfolding stake
    stake-Safe argument = record {
      stake = st + v;
      paid = 0;
      moved = inl (refl, refl, refl);
      kept = kept_if c j others (includes t.from s.stakers) _ s.sender_key _ others are_others;
      paid_from = omega arith;
      paid_to = sender_is ∙ ap pos (omega arith);
      written = to_string 16 (s.stake +ℤ t.value);
      recorded = recorded_if c j others (includes t.from s.stakers) _ s.sender_key _ apart;
      is_stake = inl (ap (to_string 16) (rw (stake_is, value_is) (pos-add st v)));
      balance = rb;
      balance_eq = balance_is;
      covered = omega (arith, covered);
    }

    -- What an unstake records.
    unstake_recorded :
        (new : ℕ)
        → (x : Text) × (lookup s.sender_key (unstake_changes c j t s (pos new)) ≡ some x)
          × IsStakeText new x
          × AreKept (unstake_changes c j t s (pos new)) others
    unfolding unstake_changes
    unstake_recorded new = elim (Bool-cases (eqb_ℤ (pos new) (pos 0))) [
      | inr some_left ↦ (
        to_string 16 (pos new),
        rw (some_left) (lookup-insert_self s.sender_key (to_string 16 (pos new)) []),
        inl refl,
        rw (some_left)
            (kept_if c j others true [] s.sender_key (to_string 16 (pos new)) others are_others),
      )
      | inl none_left ↦ (
        [],
        rw (none_left) (by_list (includes t.from s.stakers)),
        inr (refl, ground arith),
        rw (none_left) (kept_list (includes t.from s.stakers)),
      )
    ]
      where
        by_list :
            (b : Bool)
            → lookup s.sender_key (
                if b
                then write_stakers c j (splice_out t.from s.stakers) (insert s.sender_key [] [])
                else insert s.sender_key [] [])
              ≡ some []
        by_list true =
            recorded_besides c j others (splice_out t.from s.stakers) s.sender_key [] apart
        by_list false = lookup-insert_self s.sender_key [] []

        kept_list :
            (b : Bool)
            → AreKept
                (if b
                  then write_stakers c j (splice_out t.from s.stakers) (insert s.sender_key [] [])
                  else insert s.sender_key [] [])
                others
        kept_list true =
            kept_if c j others false (splice_out t.from s.stakers) s.sender_key [] others are_others
        kept_list false = kept_if c j others true [] s.sender_key [] others are_others

    repay : (a : ℕ) → ltb_ℤ s.stake (pos a) ≡ false → a ≤ st
    repay a e = enough st a (rw (stake_is) at e)

    -- The balance covers what is repaid.
    no_loss : (a : ℕ) → ltb_ℤ s.stake (pos a) ≡ false → ltb_ℤ staking.balance (pos a) ≡ true → ⊥
    no_loss a e gone =
        let short : rb < a = too_little rb a (rw (balance_is) at gone) in
        omega (arith, covered, short, repay a e)

    -- The accounts and the storage of an unstake that goes through.
    abbrev paid_back : ℕ → StakeResult
    paid_back a = record {
      changes = unstake_changes c j t s (s.stake -ℤ pos a);
      parties = record {
        sender = record sender { balance = sender.balance +ℤ pos a };
        receiver = some (record staking { balance = staking.balance -ℤ pos a });
      };
    }

    repaid :
        (argument : Bytes)
        → of_be argument ≤ st
        → IsCovered c j others s.sender_key (2 ∷ argument) st v rb sb (paid_back (of_be argument))
    repaid argument h =
        let a = of_be argument in
        let (x, recorded, is_text, kept) = unstake_recorded (st - a) in
        let left : s.stake -ℤ pos a ≡ pos (st - a) = rw (stake_is) (pos-sub st a h) in
        record {
          stake = st - a;
          paid = a;
          moved = inr (refl, omega (arith, h), refl);
          written = x;
          recorded = ap (λ z. lookup s.sender_key (unstake_changes c j t s z)) left ∙ recorded;
          is_stake = is_text;
          kept = subst (λ z. AreKept (unstake_changes c j t s z) others) (sym left) kept;
          balance = rb - a;
          balance_eq = rw (balance_is) (pos-sub rb a (omega (arith, covered, h)));
          paid_from = omega (arith, covered, h);
          paid_to = rw (sender_is) (pos-add sb a);
          covered = omega (arith, covered, h);
        }

    unstake-Safe :
        (argument : Bytes)
        → Safe c j others s.sender_key (2 ∷ argument) st v rb sb (unstake c j t argument s both)
    unfolding unstake
    unstake-Safe [] = (inl (refl, refl, refl), missing_ne)
    unstake-Safe (b ∷ bs) =
        let P = Safe c j others s.sender_key (2 ∷ b ∷ bs) st v rb sb in
        by_throw P (ltb_ℤ s.stake (pos (of_be (b ∷ bs)))) insufficient_stake
          (λ poor. (
            inr (inl (refl, too_little st (of_be (b ∷ bs)) (rw (stake_is) at poor), refl)),
            poor_ne,
          ))
          (λ rich.
            by_throw P (ltb_ℤ staking.balance (pos (of_be (b ∷ bs)))) insolvent
              (λ gone. absurd (no_loss (of_be (b ∷ bs)) rich gone))
              (λ there. repaid (b ∷ bs) (repay (of_be (b ∷ bs)) rich)))

  at_command :
      (n command : ℕ) (argument : Bytes) (key : Text) (st v rb sb : ℕ) (m : Result StakeResult)
      → n ≡ command
      → Safe c j others key (n ∷ argument) st v rb sb m
      → Safe c j others key (command ∷ argument) st v rb sb m
  at_command n command argument key st v rb sb m e =
      subst (λ k. Safe c j others key (k ∷ argument) st v rb sb m) e

  not_command : (n command : ℕ) → (command == n) ≡ false → ¬ (command ≡ n)
  not_command n command h e = ground arith

  data_ne : staking_missing_data ≡ insolvent → ⊥
  data_ne e = cc

  unknown_ne : unknown_command ≡ insolvent → ⊥
  unknown_ne e = cc

  -- If the stakes of the others, the sender's stake and the value that the transaction has just paid in
  -- are together at most the balance of the staking account, a command that goes through adds the value
  -- to the recorded stake of the sender, or takes the amount of its argument off and pays it from the
  -- staking account to the sender; it writes no other staker's entry, and the balance that it leaves
  -- covers all the stakes. A command is refused only where it is missing or unknown, or takes off nothing
  -- or more than the stake, and never with the error that the account is insolvent.
  pub run_command-Safe :
      (t : Transaction) (payload : Bytes) (s : StakeState) (sender staking : Account)
      (st v rb sb : ℕ)
      → s.stake ≡ pos st
      → t.value ≡ pos v
      → staking.balance ≡ pos rb
      → sender.balance ≡ pos sb
      → same s.sender_key (to_hex all_stakers_key) ≡ false
      → AreOthers s.sender_key others
      → total others + st + v ≤ rb
      → Safe c j others s.sender_key payload st v rb sb
          (run_command c j t payload s (record { sender = sender; receiver = some staking }))
  unfolding run_command
  run_command-Safe t [] s sender staking st v rb sb a b d e apart os h = (refl, data_ne)
  run_command-Safe t (command ∷ argument) s sender staking st v rb sb a b d e apart os h =
      let P = Safe c j others s.sender_key (command ∷ argument) st v rb sb in
      let both : Parties = record { sender = sender; receiver = some staking } in
      by_test P (command == 1)
        (λ one.
          at_command 1 command argument s.sender_key st v rb sb (stake c j t s both) (ground arith)
            (stake-Safe t s sender staking st v rb sb a b d e apart os h argument))
        (λ other.
          by_test P (command == 2)
            (λ two.
              at_command 2 command argument s.sender_key st v rb sb (unstake c j t argument s both)
                (ground arith)
                (unstake-Safe t s sender staking st v rb sb a b d e apart os h argument))
            (λ none_of_them. (
              inr (inr (not_command 1 command other, not_command 2 command none_of_them, refl)),
              unknown_ne,
            )))
