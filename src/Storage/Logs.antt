-- ===== src/Storage/Logs.antt =====
-- `saveReceipts`, `getLogs` and `getBlockMeta`.
use bery_bc.Base.{
  ℕ, suc, zero, ◌+◌, ◌-◌, Bool, true, false, Option, none, some, List, [], ◌∷◌, ◌++◌, map, same,
  ◌&&◌, if◌then◌else◌,
}
use bery_bc.Base.Int.{ℤ, pos, ◌+ℤ◌}
use bery_bc.Base.Throws.{◌>>=◌}
use bery_bc.Bytes.{Text, to_string}
use bery_bc.Crypto.{Crypto}
use bery_bc.Vm.Executor.{Log, Receipt}
use bery_bc.Storage.Database.{Database, Forms, Head, StoredLog}
use bery_bc.Storage.Keys.{receipt_key, logs_key, gas_key, bloom_key}
use bery_bc.Storage.Blocks.{get_head, parse_int}
use bery_bc.Storage.Bloom.{compute_logs_bloom}

-- The logs of one receipt, numbered from `i`.
unfoldable pub stored_logs : ℕ → Text → ℕ → Text → List Log → List StoredLog
stored_logs i hash height block_hash [] = []
stored_logs i hash height block_hash (l ∷ ls) =
    (record {
      log = l;
      log_index = i;
      transaction_hash = hash;
      block_number = height;
      block_hash = block_hash;
    })
    ∷ stored_logs (i + 1) hash height block_hash ls

-- The filter of `getLogs`, with `''` for a topic that is null.
pub record LogFilter : Type 0 where
  pub from_block : Option ℕ
  pub to_block : Option ℕ
  pub address : Text
  pub topics : List Text

-- What a client is given; a stored log has no index of its transaction.
pub record LogAnswer : Type 0 where
  pub log : Log
  pub block_hash : Text
  pub block_number : Text
  pub transaction_hash : Text
  pub log_index : Text
  pub transaction_index : Text

-- '0x'
abbrev pub ox : Text
ox = b'0' ∷ b'x' ∷ []

abbrev pub hex_number : ℕ → Text
hex_number n = ox ++ to_string 16 (pos n)

unfoldable pub log_answer : StoredLog → LogAnswer
log_answer l = record {
  log = l.log;
  block_hash = ox ++ l.block_hash;
  block_number = hex_number l.block_number;
  transaction_hash = ox ++ l.transaction_hash;
  log_index = hex_number l.log_index;
  transaction_index = hex_number 0;
}

-- `getBlockMeta`
pub record BlockMeta : Type 0 where
  pub gas_used : Option ℕ
  pub logs_bloom : Text

-- `toLowerCase` of JavaScript is the argument `lower`.
module _ (lower : Text → Text) where
  -- The topics of a filter against those of a log, by position.
  unfoldable pub topics_match : List Text → List Text → Bool
  topics_match [] topics = true
  topics_match ([] ∷ ts) [] = topics_match ts []
  topics_match ([] ∷ ts) (u ∷ us) = topics_match ts us
  topics_match ((x ∷ xs) ∷ ts) [] = false
  topics_match ((x ∷ xs) ∷ ts) ([] ∷ us) = false
  topics_match ((x ∷ xs) ∷ ts) ((y ∷ ys) ∷ us) =
      same (lower (y ∷ ys)) (lower (x ∷ xs)) && topics_match ts us

  abbrev pub address_matches : Text → Text → Bool
  address_matches [] address = true
  address_matches (x ∷ xs) address = same (lower address) (lower (x ∷ xs))

  unfoldable pub log_matches : LogFilter → Log → Bool
  unfolding topics_match
  log_matches q l = address_matches q.address l.address && topics_match q.topics l.topics

  -- The loop over the logs of a block.
  unfoldable pub answers_of : LogFilter → List StoredLog → List LogAnswer
  unfolding log_matches log_answer
  answers_of q [] = []
  answers_of q (l ∷ ls) =
      let rest = answers_of q ls in if log_matches q l.log then log_answer l ∷ rest else rest

module _ (db : Database) (f : Forms) (c : Crypto) where
  open db use {Db, get, put}

  -- The loop over the receipts: their gas, their logs, and each under its hash.
  unfoldable pub save_each :
      ℕ → Text → List Receipt → ℤ × List StoredLog × Db → ℤ × List StoredLog × Db
  save_each height block_hash [] s = s
  save_each height block_hash (r ∷ rs) (gas, logs, d) = save_each height block_hash rs (
    gas +ℤ r.gas_used,
    logs ++ stored_logs 0 r.transaction_hash height block_hash r.logs,
    put (receipt_key r.transaction_hash)
        (f.receipt_text (record { receipt = r; block_number = height; block_hash = block_hash })) d,
  )

  unfoldable pub save_receipts : ℕ → Text → List Receipt → Db → Db
  unfolding save_each
  save_receipts height block_hash receipts d =
      let (gas, logs, d1) = save_each height block_hash receipts (pos 0, [], d) in
      put (bloom_key height) (compute_logs_bloom c (map (λ l. l.log) logs))
        (put (gas_key height) (to_string 10 gas) (put (logs_key height) (f.logs_text logs) d1))

  unfoldable pub get_block_meta : Db → ℕ → Option BlockMeta
  get_block_meta d height = do
    gas ← get d (gas_key height)
    bloom ← get d (bloom_key height)
    some (record { gas_used = parse_int gas; logs_bloom = bloom })

  -- The logs of one height; a text that is none is skipped.
  unfoldable pub logs_at : Db → ℕ → List StoredLog
  logs_at d height = elim (get d (logs_key height) >>= f.parse_logs) [ none ↦ [] | some l ↦ l ]

  -- The loop over `count` heights from `height`.
  unfoldable pub logs_from : (Text → Text) → LogFilter → Db → ℕ → ℕ → List LogAnswer
  unfolding logs_at
  logs_from lower q d zero height = []
  logs_from lower q d (suc count) height =
      answers_of lower q (logs_at d height) ++ logs_from lower q d count (height + 1)

  abbrev or_else : Option ℕ → ℕ → ℕ
  or_else none n = n
  or_else (some m) n = m

  abbrev end_of : LogFilter → Option Head → ℕ
  end_of q none = or_else q.to_block (or_else q.from_block 0)
  end_of q (some head) = or_else q.to_block head.height

  -- `none` where the head cannot be parsed.
  unfoldable pub get_logs : (Text → Text) → LogFilter → Db → Option (List LogAnswer)
  unfolding logs_from
  get_logs lower q d = do
    head ← get_head db f c d
    let start = or_else q.from_block 0
    some (logs_from lower q d (end_of q head + 1 - start) start)
