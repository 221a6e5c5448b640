-- ===== src/Vm/Worker/Replay.antt =====
-- A transaction that is charged can be charged once more.
use bery_bc.Base.{ℕ, ◌+◌, ◌-◌, ◌*◌, ◌≤◌, ◌<◌, ◌^◌, ◌≡◌, inl, inr, arith}
use bery_bc.Bytes.{Bytes}
use bery_bc.Core.Transaction.{Transaction}
use bery_bc.Vm.Task.{ok}
use bery_bc.Vm.Worker.Defs.{charge}
use bery_bc.Vm.Worker.Pay.{holding, IsUserTx, charge-eq}

-- A user's transaction with the next nonce of an account whose balance covers it twice is charged,
-- and the same transaction is charged again to the account that this leaves.
pub charge_twice :
    (t : Transaction) (v p g n b : ℕ) (root code : Bytes)
    → IsUserTx t v p
    → n + 1 < 2 ^ 53
    → t.nonce ≡ n + 1
    → v + g * p + (v + g * p) ≤ b
    → (charge t g (holding n b root code) ≡ ok (holding (n + 1) (b - (v + g * p)) root code))
      × (charge t g (holding (n + 1) (b - (v + g * p)) root code)
          ≡ ok (holding (n + 1 + 1) (b - (v + g * p) - (v + g * p)) root code))
charge_twice t v p g n b root code u small next covered = (
  charge-eq t v p g n b root code u (omega arith) (inl next) (omega arith),
  charge-eq t v p g (n + 1) (b - (v + g * p)) root code u small (inr next) (omega arith),
)
