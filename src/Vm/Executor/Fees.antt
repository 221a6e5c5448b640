-- ===== src/Vm/Executor/Fees.antt =====
-- The fees and the gas that a block's run reports.
use mathlib.Core.Path.{subst}
use bery_bc.Base.{
  ℕ, ◌+◌, ◌≡◌, refl, sym, ap, ◌∙◌, some, List, [], ◌∷◌, ◌++◌, length, length-append, arith,
}
use bery_bc.Base.Int.{ℤ, pos, ◌+ℤ◌, ◌*ℤ◌, int_laws}
use bery_bc.Base.Throws.{>>=-eq-some, some-inj}
use bery_bc.Crypto.{Crypto}
use bery_bc.State.Manager.{Trie}
use bery_bc.Core.Transaction.{Transaction}
use bery_bc.Vm.Executor.Types.{Env, Event, Receipt, Outcome, applied, refused, rejected}
use bery_bc.Vm.Executor.Defs.{BlockRun, note, run_from, execute_block, process_tx, empty_run}

-- The gas of the receipts.
unfoldable pub gas_of : List Receipt → ℤ
gas_of [] = pos 0
gas_of (r ∷ rs) = r.gas_used +ℤ gas_of rs

-- The gas of each receipt at the price of its transaction.
unfoldable pub fees_of : List Transaction → List Receipt → ℤ
fees_of [] rs = pos 0
fees_of (t ∷ ts) [] = pos 0
fees_of (t ∷ ts) (r ∷ rs) = r.gas_used *ℤ t.gas_price +ℤ fees_of ts rs

gas_of-snoc : (rs : List Receipt) (r : Receipt) → gas_of (rs ++ r ∷ []) ≡ gas_of rs +ℤ r.gas_used
unfolding gas_of
gas_of-snoc [] r = omega int_laws
gas_of-snoc (x ∷ rs) r = rw (gas_of-snoc rs r) (omega int_laws)

fees_of-snoc :
    (ts : List Transaction) (rs : List Receipt) (t : Transaction) (r : Receipt)
    → length ts ≡ length rs
    → fees_of (ts ++ t ∷ []) (rs ++ r ∷ []) ≡ fees_of ts rs +ℤ r.gas_used *ℤ t.gas_price
unfolding fees_of
fees_of-snoc [] [] t r h = omega int_laws
fees_of-snoc [] (x ∷ rs) t r h = absurd (omega arith)
fees_of-snoc (u ∷ ts) [] t r h = absurd (omega arith)
fees_of-snoc (u ∷ ts) (x ∷ rs) t r h = rw (fees_of-snoc ts rs t r (omega arith)) (omega int_laws)

-- The run so far: one receipt for each transaction kept, the gas and the fees their sums, and the
-- receipts those of indices below the next one.
pub record Accounted (b : BlockRun) : Type 0 where
  pub paired : length b.valid_txs ≡ length b.receipts
  pub gas_sum : b.cumulative_gas_used ≡ gas_of b.receipts
  pub fee_sum : b.total_fees ≡ fees_of b.valid_txs b.receipts

gas_of-renumber :
    (rs : List Receipt) (r : Receipt) (g : ℤ) (i : ℕ)
    → gas_of (rs ++ (record r { cumulative_gas_used = g; transaction_index = i }) ∷ [])
      ≡ gas_of rs +ℤ r.gas_used
gas_of-renumber rs r g i =
    gas_of-snoc rs (record r { cumulative_gas_used = g; transaction_index = i })

module _ (tr : Trie) (c : Crypto) (env : Env tr) where
  note-Accounted :
      (i : ℕ) (t : Transaction) (o : Outcome) (b : BlockRun)
      → Accounted b
      → Accounted (note i t o b)
  unfolding note
  note-Accounted i t (applied r) b a =
      let r' = record r {
        cumulative_gas_used = b.cumulative_gas_used +ℤ r.gas_used;
        transaction_index = i;
      } in
      record {
        paired = omega (
          arith,
          a.paired,
          length-append b.valid_txs (t ∷ []),
          length-append b.receipts (r' ∷ []),
        );
        gas_sum = ap (λ g. g +ℤ r.gas_used) a.gas_sum ∙ sym (gas_of-snoc b.receipts r');
        fee_sum =
            ap (λ f. f +ℤ r.gas_used *ℤ t.gas_price) a.fee_sum
            ∙ sym (fees_of-snoc b.valid_txs b.receipts t r' a.paired);
      }
  note-Accounted i t (refused r) b a = a
  note-Accounted i t rejected b a = a

  run_from-Accounted :
      (i : ℕ) (l : List (Transaction × Event)) (b b' : BlockRun) (d d' : tr.Db)
      → Accounted b
      → run_from tr c env i l b d ≡ some (d', b')
      → Accounted b'
  unfolding run_from
  run_from-Accounted i [] b b' d d' a e = subst Accounted (ap (λ p. p.1) (some-inj e)) a
  run_from-Accounted i ((t, event) ∷ l) b b' d d' a e =
      let ((d1, o), _, rest) =
        >>=-eq-some (process_tx tr c env event t d)
          (λ p. run_from tr c env (i + 1) l (note i t p.1 b) p.0) e in
      run_from-Accounted (i + 1) l (note i t o b) b' d1 d' (note-Accounted i t o b a) rest

  -- After any block, whatever the workers did: there is one receipt for each transaction that is
  -- kept, and the total fees are the sum of the receipts' gas at their transactions' prices.
  pub execute_block-Accounted :
      (l : List (Transaction × Event)) (d d' : tr.Db) (b : BlockRun)
      → execute_block tr c env l d ≡ some (d', b)
      → Accounted b
  unfolding execute_block gas_of fees_of
  execute_block-Accounted l d d' b e = run_from-Accounted 0 l empty_run b d d' empty_Accounted e
    where
      empty_Accounted : Accounted empty_run
      empty_Accounted = record { paired = refl; gas_sum = refl; fee_sum = refl }
