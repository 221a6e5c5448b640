-- ===== src/Vm/Executor/Evm.antt =====
-- `executeEvmCall` and `executeEvmCreate` of the class `VMExecutor`.
use bery_bc.Base.{
  suc, ◌-◌, true, false, Option, none, some, [], ◌∷◌, ◌++◌, length, drop, same, ltb, not, ◌==◌,
  ◌&&◌, if◌then◌else◌,
}
use bery_bc.Base.Int.{ℤ, pos, ◌+ℤ◌, ◌-ℤ◌, ◌*ℤ◌, ltb_ℤ, eqb_ℤ}
use bery_bc.Base.Throws.{◌>>=◌}
use bery_bc.Bytes.{Bytes, Text, to_hex, from_hex, write_be}
use bery_bc.Crypto.{Crypto}
use bery_bc.State.Account.{Account}
use bery_bc.State.Manager.{Trie, get_account, put_account, put_code}
use bery_bc.Core.Transaction.{Transaction, system_sender, staking_address}
use bery_bc.Core.Transaction
use bery_bc.Mempool.{to_number}
use bery_bc.Vm.Executor.Types.{
  EvmResult, Env, Outcome, applied, refused, rejected, receipt_of, with_hash,
}

-- `('0x' + tx.to).replace('0x0', '0x').replace('0x', '')`: a leading zero of the address is lost.
unfoldable pub call_target : Text → Text
call_target [] = []
call_target (x ∷ xs) = if x == b'0' then xs else x ∷ xs

module _ (tr : Trie) (c : Crypto) (env : Env tr) where
  -- The sender's payment for the gas of a call, which may take the balance below zero.
  unfoldable pub charge_call : Transaction → EvmResult → tr.Db → Option tr.Db
  charge_call t r d =
      let sender = get_account tr d t.from in
      let cost = pos r.gas_used *ℤ t.gas_price in
      put_account tr t.from (record sender { balance = sender.balance -ℤ cost }) d

  -- What follows the answer of the EVM.
  unfoldable pub after_call : Transaction → Option EvmResult → tr.Db → tr.Db × Outcome
  unfolding charge_call with_hash
  after_call t none d = (d, rejected)
  after_call t (some r) d = elim (charge_call t r d) [
    | none ↦ (d, rejected)
    | some d' ↦
        with_hash tr c t (λ hash. applied (receipt_of t hash none (pos r.gas_used) true r.logs)) d'
  ]

  -- `executeEvmCall`
  unfoldable pub execute_evm_call : Transaction → tr.Db → tr.Db × Outcome
  unfolding call_target after_call
  execute_evm_call t d =
      let (d', answer) =
        env.evm_call
          (record {
            from = t.from;
            to = call_target t.to;
            payload = t.payload;
            value = t.value;
            gas = t.gas_limit;
          })
          d in
      after_call t answer d'

  -- The nonce of the new contract's address: one less than the sender's.
  abbrev previous : ℤ → Option Bytes
  previous (pos (suc n)) = write_be 8 n
  previous n = none

  -- The sender, charged for a creation; `none` where the nonce or the balance does not allow it.
  unfoldable pub charge_creation : Transaction → Account → Option (Option Account)
  charge_creation t sender = do
    n ← to_number sender.nonce
    let upfront = pos t.gas_limit *ℤ t.gas_price
    some (
        if not (eqb_ℤ (pos t.nonce) (n +ℤ pos 1))
        then none
        else if ltb_ℤ sender.balance (t.value +ℤ upfront)
        then none
        else some (record sender {
          balance = sender.balance -ℤ upfront -ℤ t.value;
          nonce = sender.nonce +ℤ pos 1;
        }))

  -- What is left of the gas is paid back to a user.
  unfoldable pub refund_creation : Transaction → EvmResult → Account → Account
  refund_creation t r sender =
      let unused = t.gas_limit - r.gas_used in
      if not (same t.from system_sender) && ltb 0 unused
      then record sender { balance = sender.balance +ℤ pos unused *ℤ t.gas_price }
      else sender

  -- The writes at the end of `executeEvmCreate`, and its receipt.
  unfoldable pub store_creation :
      Transaction → Account → Text → Account → EvmResult → tr.Db → tr.Db × Outcome
  unfolding refund_creation with_hash
  store_creation t sender address receiver r d =
      let code_hash = c.generichash r.runtime_code in
      elim (put_account tr t.from (refund_creation t r sender) d) [
        | none ↦ (d, rejected)
        | some d1 ↦ elim (put_account tr address (record receiver { code_hash = code_hash }) d1) [
          | none ↦ (d1, rejected)
          | some d2 ↦
              let gas_used = if r.gas_used == 0 then t.gas_limit else r.gas_used in
              with_hash tr c t
                (λ hash. applied (receipt_of t hash (some address) (pos gas_used) true r.logs))
                (put_code tr code_hash r.runtime_code d2)
        ]
      ]

  -- The receipt of a refusal.
  abbrev refused_receipt : Transaction → tr.Db → tr.Db × Outcome
  refused_receipt t d =
      with_hash tr c t (λ hash. refused (receipt_of t hash none (pos 0) false [])) d

  -- The address of the contract, and the rest of `executeEvmCreate`.
  unfoldable pub create_contract : Transaction → Account → tr.Db → tr.Db × Outcome
  unfolding store_creation
  create_contract t sender d = elim (previous sender.nonce) [
    | none ↦ (d, rejected)
    | some nonce_bytes ↦
        let hash = c.keccak_256 (from_hex t.from ++ nonce_bytes) in
        let address = to_hex (drop (length hash - 20) hash) in
        let receiver = get_account tr d address in
        let (d1, answer) =
          env.evm_create
            (record {
              from = t.from;
              to = [];
              payload = t.payload;
              value = t.value;
              gas = t.gas_limit;
            })
            d in
        elim answer [
          | none ↦ (d1, rejected)
          | some r ↦
              store_creation t sender address
                (record receiver { balance = receiver.balance +ℤ t.value }) r d1
        ]
  ]

  -- `executeEvmCreate`
  unfoldable pub execute_evm_create : Transaction → tr.Db → tr.Db × Outcome
  unfolding charge_creation create_contract with_hash
  execute_evm_create t d =
      if not (Transaction.verify c t)
      then refused_receipt t d
      else let sender = get_account tr d t.from in
        if same t.from system_sender
        then create_contract t sender d
        else elim (charge_creation t sender) [
          | none ↦ (d, rejected)
          | some none ↦ refused_receipt t d
          | some (some charged) ↦ create_contract t charged d
        ]
