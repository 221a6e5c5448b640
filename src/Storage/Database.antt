-- ===== src/Storage/Database.antt =====
-- `LevelDB`, and the JSON texts that the block store writes. The package `level` and the functions
-- `JSON.stringify` and `JSON.parse` are not under src/: they are the records `Database` and `Forms`.
-- The texts that are stored are ASCII, so the bytes of a text are its codes.
use bery_bc.Base.{ℕ, ◌≡◌, Option, some, List, same, if◌then◌else◌}
use bery_bc.Base.TextMap.{TextMap, lookup, insert, lookup-insert}
use bery_bc.Bytes.{Bytes, Text}
use bery_bc.Core.Block.Json.{BlockJson}
use bery_bc.Vm.Executor.{Log, Receipt}

pub record Database : Type 1 where
  pub Db : Type 0
  pub get : Db → Text → Option Bytes
  pub put : Text → Bytes → Db → Db

-- A get after a put finds the value that was put, and otherwise what was there.
pub record IsDatabase (db : Database) : Type 0 where
  pub get-put :
      (j k : Text) (v : Bytes) (d : db.Db)
      → db.get (db.put k v d) j ≡ (if same j k then some v else db.get d j)

-- `{ height, hash }`
pub record Head : Type 0 where
  pub height : ℕ
  pub hash : Text

-- A receipt with the block that it is of.
pub record StoredReceipt : Type 0 where
  pub receipt : Receipt
  pub block_number : ℕ
  pub block_hash : Text

pub record StoredLog : Type 0 where
  pub log : Log
  pub log_index : ℕ
  pub transaction_hash : Text
  pub block_number : ℕ
  pub block_hash : Text

pub record Forms : Type 0 where
  pub block_text : BlockJson → Bytes
  pub parse_block : Bytes → Option BlockJson
  pub head_text : Head → Bytes
  pub parse_head : Bytes → Option Head
  pub receipt_text : StoredReceipt → Bytes
  pub parse_receipt : Bytes → Option StoredReceipt
  pub logs_text : List StoredLog → Bytes
  pub parse_logs : Bytes → Option (List StoredLog)

-- What is written is parsed.
pub record IsReadable (f : Forms) : Type 0 where
  pub parse-block : (j : BlockJson) → f.parse_block (f.block_text j) ≡ some j
  pub parse-head : (h : Head) → f.parse_head (f.head_text h) ≡ some h
  pub parse-receipt : (r : StoredReceipt) → f.parse_receipt (f.receipt_text r) ≡ some r
  pub parse-logs : (l : List StoredLog) → f.parse_logs (f.logs_text l) ≡ some l

-- A map is a database.
abbrev pub map_database : Database
map_database = record { Db = TextMap Bytes; get = λ d k. lookup k d; put = λ k v d. insert k v d }

pub map_database-IsDatabase : IsDatabase map_database
map_database-IsDatabase = record { get-put = λ j k v d. lookup-insert j k v d }
