-- ===== src/Api/RpcLaws.antt =====
-- What the methods of /rpc answer about blocks and transactions that the node holds.
use bery_bc.Base.{
  ℕ, ◌≡◌, refl, sym, ◌∙◌, ap, true, false, Option, none, some, ◌++◌, inl, inr, arith,
}
use bery_bc.Base.Int.{ℤ, pos, eqb_ℤ, ◌+ℤ◌}
use bery_bc.Base.Throws.{◌>>=◌, some-inj}
use bery_bc.Bytes.{Bytes, Text}
use bery_bc.Bytes.ParseHex.{parse_hex, parse_hex-to_string}
use bery_bc.Core.Block.{Block}
use bery_bc.Core.Transaction.{Transaction}
use bery_bc.Core.Transaction
use bery_bc.Crypto.{Crypto}
use bery_bc.Mempool.{Mempool, add, nonce_accepted, to_number}
use bery_bc.Mempool.Admission.{add-cases}
use bery_bc.State.Manager.{Trie, get_account}
use bery_bc.Storage.Bloom.{drop_0x}
use bery_bc.Storage.Database.{Database, Forms, IsDatabase, IsReadable}
use bery_bc.Storage.Logs.{ox, hex_number}
use bery_bc.Api.RpcForms.{after_0x, height_of_tag}
use bery_bc.Api.Rpc.{Chain, get_transaction_count}

-- A height in hexadecimal is the tag of that height.
pub height_of_tag-hex_number : (n head : ℕ) → height_of_tag (hex_number n) head ≡ some n
unfolding height_of_tag after_0x
height_of_tag-hex_number n head = parse_hex-to_string n

drop_0x-ox : (t : Text) → drop_0x (ox ++ t) ≡ t
unfolding drop_0x
drop_0x-ox t = refl

module _ (tr : Trie) (db : Database) (law : IsDatabase db) (f : Forms) (readable : IsReadable f)
    (c : Crypto) where
  abbrev chain_at : ℕ → db.Db → Option (Chain tr db f c)
  chain_at height d = some (record { height = height; blocks = d })

not_next : (n : ℕ) → eqb_ℤ (pos n) (pos n +ℤ pos 1) ≡ false
unfolding ◌+ℤ◌
not_next n = ground arith

-- Whether a nonce is accepted, for an account that has it already.
own_nonce_refused :
    (o : Option ℤ) (n : ℕ)
    → ((k : ℤ) → o ≡ some k → k ≡ pos n)
    → (elim o [ none ↦ false | some k ↦ eqb_ℤ (pos n) (k +ℤ pos 1) ]) ≡ false
own_nonce_refused none n h = refl
own_nonce_refused (some k) n h = rw (h k refl) (not_next n)

true-ne-false : true ≡ false → ⊥
true-ne-false h = cc

module _ (tr : Trie) (db : Database) (f : Forms) (c : Crypto) where
  counted :
      (param : Text) (n m : ℕ) (d : tr.Db)
      → (get_account tr d param).nonce ≡ pos n
      → (after_0x (get_transaction_count tr db f c (ox ++ param) d) >>= parse_hex) ≡ some m
      → n ≡ m
  unfolding get_transaction_count after_0x
  counted param n m d natural read =
      some-inj (sym (parse_hex-to_string n) ∙ (rw (drop_0x-ox param, natural) at read))

  to_number-eq : (n : ℕ) (k : ℤ) → to_number (pos n) ≡ some k → k ≡ pos n
  unfolding to_number
  to_number-eq n k e = ground arith

  -- A client that takes the nonce of its transaction from `eth_getTransactionCount` is refused: the pool,
  -- which reads the same accounts, accepts the next nonce only.
  pub counted_nonce_refused :
      (t : Transaction) (n : ℕ) (d : tr.Db) (m : Mempool)
      → (get_account tr d t.from).nonce ≡ pos n
      → (after_0x (get_transaction_count tr db f c (ox ++ t.from) d) >>= parse_hex) ≡ some t.nonce
      → ¬ ((m' : Mempool) × (add c (some (λ a. some (get_account tr d a))) t m ≡ some (true, m')))
  unfolding nonce_accepted
  counted_nonce_refused t n d m natural read (m', e) =
      elim (add-cases c (some (λ a. some (get_account tr d a))) t m m' true e) [
        | inl (wrong, _) ↦ true-ne-false wrong
        | inr (_, a) ↦ true-ne-false (
            sym a.next_nonce
            ∙ rw (nonce_accepted, natural)
                (own_nonce_refused (to_number (pos n)) t.nonce
                  (λ k h. to_number-eq n k h ∙ ap pos (counted t.from n t.nonce d natural read))))
      ]
