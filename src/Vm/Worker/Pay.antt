-- ===== src/Vm/Worker/Pay.antt =====
-- What a sender pays and a receiver gets, in numbers that are not negative.
use bery_bc.Base.{
  ℕ, ◌+◌, ◌-◌, ◌*◌, ◌≤◌, ◌<◌, ◌^◌, ◌≡◌, ap, true, false, Option, none, some, same, arith, ◌⊎◌, inl,
  inr, ltb, Bool-cases,
}
use bery_bc.Base.Int.{pos, ltb_ℤ, pos-add, pos-sub, pos-mul}
use bery_bc.Bytes.{Bytes}
use bery_bc.State.Account.{Account}
use bery_bc.Core.Transaction.{Transaction, system_sender}
use bery_bc.Mempool.{to_number}
use bery_bc.Vm.Task.{ok}
use bery_bc.Vm.Worker.Defs.{check_nonce, charge, pay, refund}

-- An account with nonce `n` and balance `b`.
abbrev pub holding : ℕ → ℕ → Bytes → Bytes → Account
holding n b root code = record {
  nonce = pos n;
  balance = pos b;
  storage_root = root;
  code_hash = code;
}

-- A user's transaction of value `v` at gas price `p`.
pub record IsUserTx (t : Transaction) (v p : ℕ) : Type 0 where
  pub user : same t.from system_sender ≡ false
  pub value_nat : t.value ≡ pos v
  pub price_nat : t.gas_price ≡ pos p

module _ (t : Transaction) (v p g n b : ℕ) (root code : Bytes) (u : IsUserTx t v p)
    (small : n < 2 ^ 53) where
  to_number-pos : to_number (pos n) ≡ some (pos n)
  unfolding to_number
  to_number-pos = ground arith

  -- The nonce of the transaction may be the account's next one, and may be its present one.
  pub check_nonce-eq :
      (t.nonce ≡ n + 1) ⊎ (t.nonce ≡ n) → check_nonce t (holding n b root code) ≡ ok tt
  unfolding check_nonce
  check_nonce-eq h = rw (to_number-pos, pos-add n 1) (ground arith)

  pub charge-eq :
      (t.nonce ≡ n + 1) ⊎ (t.nonce ≡ n)
      → v + g * p ≤ b
      → charge t g (holding n b root code) ≡ ok (holding (n + 1) (b - (v + g * p)) root code)
  unfolding charge
  charge-eq h covered =
      let enough : ltb_ℤ (pos b) (pos (v + g * p)) ≡ false = ground arith in
      rw (check_nonce-eq h) (
        simp (u.value_nat, u.price_nat, pos-mul, pos-add, enough)
          (rw (pos-sub b (g * p) (omega arith), pos-sub (b - g * p) v (omega arith))
            (ap (λ k. ok (holding (n + 1) k root code)) (omega arith))))

  -- Between two accounts, with the next nonce or the present one and a balance that covers the value
  -- and the whole gas: the sender is charged both, and the receiver is paid the value.
  pub pay-eq :
      (rn rb : ℕ) (rroot rcode : Bytes)
      → (t.nonce ≡ n + 1) ⊎ (t.nonce ≡ n)
      → v + g * p ≤ b
      → pay t g
          (record { sender = holding n b root code; receiver = some (holding rn rb rroot rcode) })
        ≡ ok (record {
          sender = holding (n + 1) (b - (v + g * p)) root code;
          receiver = some (holding rn (rb + v) rroot rcode);
        })
  unfolding pay
  pay-eq rn rb rroot rcode h covered =
      rw (u.user, charge-eq h covered) (simp (u.value_nat, pos-add))

  -- To oneself, under the same conditions, the value comes back, and the gas is charged.
  pub pay_self-eq :
      (t.nonce ≡ n + 1) ⊎ (t.nonce ≡ n)
      → v + g * p ≤ b
      → pay t g (record { sender = holding n b root code; receiver = none })
        ≡ ok (record { sender = holding (n + 1) (b - g * p) root code; receiver = none })
  unfolding pay
  pay_self-eq h covered =
      rw (u.user, charge-eq h covered)
        (simp (u.value_nat, pos-add)
          (ap (λ k. ok (record { sender = holding (n + 1) k root code; receiver = none }))
            (omega arith)))

no_difference : (used g : ℕ) → g ≤ used → g - used ≡ 0
no_difference used g h = omega arith

-- The gas that was not used is paid back at the same price.
pub refund-eq :
    (t : Transaction) (v p g used n b : ℕ) (root code : Bytes) (r : Option Account)
    → IsUserTx t v p
    → used ≤ g
    → refund t g (pos used) (record { sender = holding n b root code; receiver = r })
      ≡ record { sender = holding n (b + (g - used) * p) root code; receiver = r }
unfolding refund
refund-eq t v p g used n b root code r u h = elim (Bool-cases (ltb used g)) [
  | inl less ↦
      let test : ltb_ℤ (pos used) (pos g) ≡ true = ground arith in
      simp (test, u.price_nat) (rw (pos-sub g used h) (simp (pos-mul, pos-add)))
  | inr more ↦
      let test : ltb_ℤ (pos used) (pos g) ≡ false = ground arith in
      let none_left : b ≡ b + (g - used) * p =
        rw (no_difference used g (ground arith)) (omega arith) in
      simp test (ap (λ k. record { sender = holding n k root code; receiver = r }) none_left)
]
