-- ===== src/Vm/Worker/Transfer.antt =====
-- A transfer of value, from the message to the accounts in the answer.
use bery_bc.Base.{
  ℕ, ◌+◌, ◌-◌, ◌*◌, ◌≤◌, ◌<◌, ◌^◌, ◌≡◌, refl, ap, ◌∙◌, true, false, Option, none, some, [], ◌∷◌,
  same, arith, ◌⊎◌, ltb, length,
}
use bery_bc.Base.Int.{ℤ, pos}
use bery_bc.Bytes.{Bytes}
use bery_bc.Crypto.{Crypto}
use bery_bc.State.Account.{Account, IsStorable, serialize, deserialize, deserialize-serialize}
use bery_bc.Core.Transaction.{Transaction, staking_address, or_default, verify}
use bery_bc.Vm.Task.{Result, ok, TxTask, TxResult, Parties}
use bery_bc.Vm.Staking.{JsonLists}
use bery_bc.Vm.Wasm.{Run}
use bery_bc.Vm.Worker.Defs.{
  base_gas, read_account, load_parties, run_staking, run_code, answer, run_transaction,
}
use bery_bc.Vm.Worker.Pay.{holding, IsUserTx, pay-eq, refund-eq}

-- A task that carries value between two accounts that are not the staking contract, with enough gas.
pub record IsTransfer (task : TxTask) (t : Transaction) (g : ℕ) : Type 0 where
  pub no_create : task.is_create ≡ false
  pub no_code : task.code ≡ none
  pub to_other : same t.to t.from ≡ false
  pub not_staking : same t.to staking_address ≡ false
  pub gas_limit : or_default task.gas_limit 10000000 ≡ g
  pub gas_enough : base_gas ≤ g

holding-IsStorable :
    (n b : ℕ) (root code : Bytes)
    → n < 256 ^ 32
    → b < 256 ^ 32
    → length root ≡ 32
    → length code ≡ 32
    → IsStorable (holding n b root code)
holding-IsStorable n b root code hn hb hr hc = record {
  nonce_value = n;
  nonce_nat = refl;
  nonce_fits = hn;
  balance_value = b;
  balance_nat = refl;
  balance_fits = hb;
  root_length = hr;
  code_length = hc;
}

-- The price of the whole gas, less that of what is paid back, is that of the gas used.
gas_back :
    (g used v p b : ℕ)
    → used ≤ g
    → v + g * p ≤ b
    → b - (v + g * p) + (g - used) * p ≡ b - (v + used * p)
gas_back g used v p b h covered =
    let split : g ≡ used + (g - used) = omega arith in
    let all : g * p ≡ used * p + (g - used) * p = ap (λ k. k * p) split ∙ omega arith in
    omega (arith, all)

module _ (c : Crypto) (j : JsonLists) (instantiate : Bytes → Option Run) where
  -- The accounts that an answer carries, as the executor reads them.
  pub record Carries (r : Result TxResult) (t : Transaction) (s p : Account) (used : ℤ)
      : Type 0 where
    pub sender_data : Bytes
    pub receiver_data : Bytes
    pub result : TxResult
    pub succeeds : r ≡ ok result
    pub changes_eq :
        result.state_changes
        ≡ (record { address = t.from; account_data = sender_data })
          ∷ (record { address = t.to; account_data = receiver_data })
          ∷ []
    pub sender_eq : deserialize sender_data ≡ s
    pub receiver_eq : deserialize receiver_data ≡ p
    pub gas_eq : result.gas_used ≡ used
    pub no_code : result.new_code ≡ none
    pub no_storage : result.storage_changes ≡ none

  -- The accounts before the transfer, and what makes it go through.
  pub record IsCovered (task : TxTask) (t : Transaction) (g v p n b rn rb : ℕ)
      (root code rroot rcode : Bytes) : Type 0 where
    pub transfer : IsTransfer task t g
    pub user_tx : IsUserTx t v p
    pub signed : verify c t ≡ true
    pub sender_account : read_account task.sender_account_data ≡ holding n b root code
    pub receiver_account : read_account task.receiver_account_data ≡ holding rn rb rroot rcode
    pub nonce_fits : n + 1 < 2 ^ 53
    pub nonce_matches : (t.nonce ≡ n + 1) ⊎ (t.nonce ≡ n)
    pub covered : v + g * p ≤ b
    pub sender_fits : b < 256 ^ 32
    pub receiver_nonce_fits : rn < 256 ^ 32
    pub receiver_fits : rb + v < 256 ^ 32
    pub hash_lengths :
        (length root ≡ 32) × (length code ≡ 32) × (length rroot ≡ 32) × (length rcode ≡ 32)

  module _ (task : TxTask) (t : Transaction) (g v p n b rn rb : ℕ) (root code rroot rcode : Bytes)
      (h : IsCovered task t g v p n b rn rb root code rroot rcode) where
    abbrev sender_paid : Account
    sender_paid = holding (n + 1) (b - (v + g * p)) root code

    abbrev sender_after : Account
    sender_after = holding (n + 1) (b - (v + g * p) + (g - base_gas) * p) root code

    abbrev receiver_after : Account
    receiver_after = holding rn (rb + v) rroot rcode

    load_parties-eq :
        load_parties c j instantiate task t
        ≡ ok (
          record { sender = holding n b root code; receiver = some (holding rn rb rroot rcode) },
          t.to,
        )
    unfolding load_parties
    load_parties-eq =
        rw (h.transfer.no_create, h.transfer.to_other, h.sender_account, h.receiver_account)

    run_staking-eq :
        (q : Parties)
        → run_staking c j instantiate task t q ≡ ok (record { changes = []; parties = q })
    unfolding run_staking
    run_staking-eq q = rw h.transfer.not_staking

    run_code-eq :
        (q : Parties)
        → run_code c j instantiate task g (record { changes = []; parties = q })
          ≡ ok (record { parties = q; new_code = none; changes = []; gas_used = pos base_gas })
    unfolding run_code
    run_code-eq q = rw h.transfer.no_code

    enough_gas : ltb g base_gas ≡ false
    enough_gas = ground (arith, h.transfer.gas_enough)

    steps-eq :
        run_transaction c j instantiate task t
        ≡ answer c j instantiate t t.to g (record {
          parties = record { sender = sender_paid; receiver = some receiver_after };
          new_code = none;
          changes = [];
          gas_used = pos base_gas;
        })
    unfolding run_transaction
    steps-eq = rw (
      h.transfer.gas_limit,
      enough_gas,
      h.signed,
      load_parties-eq,
      pay-eq t v p g n b root code h.user_tx (omega arith) rn rb rroot rcode h.nonce_matches
          h.covered,
      run_staking-eq,
      run_code-eq,
    )

    balance_eq : b - (v + g * p) + (g - base_gas) * p ≡ b - (v + base_gas * p)
    balance_eq = gas_back g base_gas v p b h.transfer.gas_enough h.covered

    balance_le : b - (v + g * p) + (g - base_gas) * p ≤ b
    balance_le = rw balance_eq (omega arith)

    sender_after-IsStorable : IsStorable sender_after
    sender_after-IsStorable =
        holding-IsStorable (n + 1) _ root code (omega arith)
          (omega (arith, balance_le, h.sender_fits)) h.hash_lengths.0 h.hash_lengths.1

    receiver_after-IsStorable : IsStorable receiver_after
    receiver_after-IsStorable =
        holding-IsStorable rn (rb + v) rroot rcode h.receiver_nonce_fits h.receiver_fits
          h.hash_lengths.2 h.hash_lengths.3

    answer-eq :
        (sd rd : Bytes)
        → serialize sender_after ≡ some sd
        → serialize receiver_after ≡ some rd
        → answer c j instantiate t t.to g (record {
          parties = record { sender = sender_paid; receiver = some receiver_after };
          new_code = none;
          changes = [];
          gas_used = pos base_gas;
        })
          ≡ ok (record {
            state_changes =
                (record { address = t.from; account_data = sd })
                ∷ (record { address = t.to; account_data = rd })
                ∷ [];
            new_code = none;
            storage_changes = none;
            contract_address = t.to;
            gas_used = pos base_gas;
          })
    unfolding answer
    answer-eq sd rd es er = rw (
      refund-eq t v p g base_gas (n + 1) (b - (v + g * p)) root code (some receiver_after) h.user_tx
          h.transfer.gas_enough,
      es,
      er,
    )

    -- A covered transfer succeeds, and its answer carries the sender with the next nonce, less the
    -- value and 21000 units of gas, and the receiver with the value more; it writes nothing else.
    pub transfer_moves :
        Carries
          (run_transaction c j instantiate task t)
          t
          (holding (n + 1) (b - (v + base_gas * p)) root code)
          (holding rn (rb + v) rroot rcode)
          (pos base_gas)
    transfer_moves =
        let (sd, es, ds) = deserialize-serialize sender_after sender_after-IsStorable in
        let (rd, er, dr) = deserialize-serialize receiver_after receiver_after-IsStorable in
        record {
          sender_data = sd;
          receiver_data = rd;
          result = record {
            state_changes =
                (record { address = t.from; account_data = sd })
                ∷ (record { address = t.to; account_data = rd })
                ∷ [];
            new_code = none;
            storage_changes = none;
            contract_address = t.to;
            gas_used = pos base_gas;
          };
          succeeds = steps-eq ∙ answer-eq sd rd es er;
          changes_eq = refl;
          sender_eq = ds ∙ ap (λ k. holding (n + 1) k root code) balance_eq;
          receiver_eq = dr;
          gas_eq = refl;
          no_code = refl;
          no_storage = refl;
        }
