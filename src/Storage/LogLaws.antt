-- ===== src/Storage/LogLaws.antt =====
-- What `getLogs` answers after `saveReceipts`.
use bery_bc.Base.{
  ℕ, ◌≡◌, refl, sym, ◌∙◌, ap, Bool, true, false, some, List, [], ◌∷◌, ◌++◌, same, ◌==◌,
  if◌then◌else◌, ◌↔◌,
}
use bery_bc.Base.Int.{ℤ, pos}
use mathlib.Core.List.{append_assoc, append-nil}
use bery_bc.Bytes.{Text}
use bery_bc.Crypto.{Crypto}
use bery_bc.Vm.Executor.{Log, Receipt}
use bery_bc.Storage.Database.{Database, IsDatabase, Forms, IsReadable, StoredLog}
use bery_bc.Storage.Keys.{receipt_key, logs_key, gas_key, bloom_key, same-logs_key}
use bery_bc.Storage.Logs.{
  stored_logs, LogFilter, log_matches, answers_of, save_each, save_receipts, logs_at,
}
use bery_bc.Storage.Chain.{get-put_ne}
use bery_bc.Storage.FilterLaws.{
  IsMatch, answers_for, log_matches-IsMatch, answers_of-append, answers_of-stored_logs,
}

-- All the logs of the receipts, each receipt's numbered from zero.
abbrev pub logs_of : ℕ → Text → List Receipt → List StoredLog
logs_of height block_hash [] = []
logs_of height block_hash (r ∷ rs) =
    stored_logs 0 r.transaction_hash height block_hash r.logs ++ logs_of height block_hash rs

answers_of-logs_of :
    (lower : Text → Text) (q : LogFilter) (height : ℕ) (block_hash : Text) (rs : List Receipt)
    → answers_of lower q (logs_of height block_hash rs)
      ≡ answers_for (log_matches lower q) height block_hash rs
unfolding answers_of
answers_of-logs_of lower q height block_hash [] = refl
answers_of-logs_of lower q height block_hash (r ∷ rs) =
    answers_of-append lower q (stored_logs 0 r.transaction_hash height block_hash r.logs)
      (logs_of height block_hash rs)
    ∙ rw
        (
          answers_of-stored_logs lower q height block_hash r.transaction_hash 0 r.logs,
          answers_of-logs_of lower q height block_hash rs,
        )
        refl

logs_key-receipt_key :
    (height : ℕ) (hash : Text) → same (logs_key height) (receipt_key hash) ≡ false
unfolding logs_key receipt_key same
logs_key-receipt_key height hash = refl

logs_key-gas_key : (height n : ℕ) → same (logs_key height) (gas_key n) ≡ false
unfolding logs_key gas_key same
logs_key-gas_key height n = refl

logs_key-bloom_key : (height n : ℕ) → same (logs_key height) (bloom_key n) ≡ false
unfolding logs_key bloom_key same
logs_key-bloom_key height n = refl

module _ (db : Database) (law : IsDatabase db) (f : Forms) (readable : IsReadable f)
    (c : Crypto) where
  open db use {Db, get, put}

  save_each-logs :
      (height : ℕ) (block_hash : Text) (rs : List Receipt) (gas : ℤ) (logs : List StoredLog)
      (d : Db)
      → (save_each db f c height block_hash rs (gas, logs, d)).1
        ≡ logs ++ logs_of height block_hash rs
  unfolding save_each
  save_each-logs height block_hash [] gas logs d = sym (append-nil logs)
  save_each-logs height block_hash (r ∷ rs) gas logs d =
      save_each-logs height block_hash rs _ _ _
      ∙ append_assoc logs (stored_logs 0 r.transaction_hash height block_hash r.logs)
          (logs_of height block_hash rs)

  save_each-logs_key :
      (n height : ℕ) (block_hash : Text) (rs : List Receipt) (gas : ℤ) (logs : List StoredLog)
      (d : Db)
      → get (save_each db f c height block_hash rs (gas, logs, d)).2 (logs_key n)
        ≡ get d (logs_key n)
  unfolding save_each
  save_each-logs_key n height block_hash [] gas logs d = refl
  save_each-logs_key n height block_hash (r ∷ rs) gas logs d =
      save_each-logs_key n height block_hash rs _ _ _
      ∙ get-put_ne db law f c (logs_key n) (receipt_key r.transaction_hash) _ d
          (logs_key-receipt_key n r.transaction_hash)

  logs_data :
      (n height : ℕ) (block_hash : Text) (rs : List Receipt) (d : Db)
      → get (save_receipts db f c height block_hash rs d) (logs_key n) ≡ (
          if n == height
          then some (f.logs_text (logs_of height block_hash rs))
          else get d (logs_key n))
  unfolding save_receipts
  logs_data n height block_hash rs d =
      get-put_ne db law f c (logs_key n) (bloom_key height) _ _ (logs_key-bloom_key n height)
      ∙ get-put_ne db law f c (logs_key n) (gas_key height) _ _ (logs_key-gas_key n height)
      ∙ law.get-put (logs_key n) (logs_key height) _ _
      ∙ rw
          (
            same-logs_key n height,
            save_each-logs_key n height block_hash rs (pos 0) [] d,
            save_each-logs height block_hash rs (pos 0) [] d,
          )
          refl

  logs_at-some :
      (d : Db) (n : ℕ) (ls : List StoredLog)
      → get d (logs_key n) ≡ some (f.logs_text ls)
      → logs_at db f c d n ≡ ls
  unfolding logs_at
  logs_at-some d n ls h = rw (h, logs_at) (rw (readable.parse-logs ls) refl)

  answers_of-saved :
      (lower : Text → Text) (q : LogFilter) (n height : ℕ) (block_hash : Text) (rs : List Receipt)
      (d : Db)
      → answers_of lower q (logs_at db f c (save_receipts db f c height block_hash rs d) n) ≡ (
          if n == height
          then answers_for (log_matches lower q) height block_hash rs
          else answers_of lower q (logs_at db f c d n))
  unfolding logs_at
  answers_of-saved lower q n height block_hash rs d =
      by_height (n == height) (logs_data n height block_hash rs d)
    where
      by_height :
          (t : Bool)
          → get (save_receipts db f c height block_hash rs d) (logs_key n)
            ≡ (if t then some (f.logs_text (logs_of height block_hash rs)) else get d (logs_key n))
          → answers_of lower q (logs_at db f c (save_receipts db f c height block_hash rs d) n) ≡ (
              if t
              then answers_for (log_matches lower q) height block_hash rs
              else answers_of lower q (logs_at db f c d n))
      by_height true h =
          ap (answers_of lower q) (logs_at-some _ n (logs_of height block_hash rs) h)
          ∙ answers_of-logs_of lower q height block_hash rs
      by_height false h = ap (answers_of lower q) (rw (h, logs_at) refl)

  -- After `saveReceipts` of a height, a filter finds at this height exactly the logs of the receipts
  -- that match it, in their order and each with its number in its receipt, and at every other height what
  -- it found before. A log matches if its address is the filter's, where the filter has one, and every
  -- topic of the filter that is not null stands at its position of the log, but for the case of letters.
  pub answers_of-save_receipts :
      (lower : Text → Text) (q : LogFilter) (n height : ℕ) (block_hash : Text) (rs : List Receipt)
      (d : Db)
      → (matches : Log → Bool) × ((l : Log) → (matches l ≡ true) ↔ IsMatch lower q l)
        × (answers_of lower q (logs_at db f c (save_receipts db f c height block_hash rs d) n) ≡ (
            if n == height
            then answers_for matches height block_hash rs
            else answers_of lower q (logs_at db f c d n)))
  answers_of-save_receipts lower q n height block_hash rs d = (
    log_matches lower q,
    log_matches-IsMatch lower q,
    answers_of-saved lower q n height block_hash rs d,
  )
