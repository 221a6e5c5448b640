-- ===== src/Storage/Receipts.antt =====
-- `getReceipt`. The numbers of a receipt are below 2 ^ 53, as `Number` keeps them.
use bery_bc.Base.{Bool, Option, none, some, List, [], ◌∷◌, ◌++◌, map}
use bery_bc.Base.Int.{ℤ}
use bery_bc.Base.Throws.{◌>>=◌}
use bery_bc.Bytes.{Text, to_string}
use bery_bc.Bytes.Decimal.{of_decimal}
use bery_bc.Crypto.{Crypto}
use bery_bc.Vm.Executor.{Log}
use bery_bc.Storage.Database.{Database, Forms, StoredReceipt}
use bery_bc.Storage.Keys.{receipt_key}
use bery_bc.Storage.Logs.{LogAnswer, ox, hex_number}

-- What a client is given.
pub record ReceiptAnswer : Type 0 where
  pub transaction_hash : Text
  pub transaction_index : Text
  pub block_hash : Text
  pub block_number : Text
  pub from : Text
  pub to : Option Text
  pub cumulative_gas_used : Text
  pub gas_used : Text
  pub contract_address : Option Text
  pub logs : List LogAnswer
  pub status : Bool
  pub effective_gas_price : Text

-- 'NaN'
abbrev not_a_number : Text
not_a_number = b'N' ∷ b'a' ∷ b'N' ∷ []

abbrev hex_integer : ℤ → Text
hex_integer n = ox ++ to_string 16 n

-- `'0x' + Number(text || 0).toString(16)`
abbrev hex_of_text : Option ℤ → Text
hex_of_text none = ox ++ not_a_number
hex_of_text (some n) = hex_integer n

-- `text ? '0x' + text : null`
abbrev prefixed : Text → Option Text
prefixed [] = none
prefixed (c ∷ cs) = some (ox ++ c ∷ cs)

abbrev prefixed_address : Option Text → Option Text
prefixed_address none = none
prefixed_address (some t) = prefixed t

-- The logs of a receipt have no index of their own.
unfoldable pub receipt_log : StoredReceipt → Log → LogAnswer
receipt_log r l = record {
  log = l;
  block_hash = ox ++ r.block_hash;
  block_number = hex_number r.block_number;
  transaction_hash = ox ++ r.receipt.transaction_hash;
  log_index = hex_number 0;
  transaction_index = hex_number r.receipt.transaction_index;
}

unfoldable pub receipt_answer : StoredReceipt → ReceiptAnswer
unfolding receipt_log
receipt_answer r = record {
  transaction_hash = ox ++ r.receipt.transaction_hash;
  transaction_index = hex_number r.receipt.transaction_index;
  block_hash = ox ++ r.block_hash;
  block_number = hex_number r.block_number;
  from = ox ++ r.receipt.from;
  to = prefixed r.receipt.to;
  cumulative_gas_used = hex_integer r.receipt.cumulative_gas_used;
  gas_used = hex_integer r.receipt.gas_used;
  contract_address = prefixed_address r.receipt.contract_address;
  logs = map (receipt_log r) r.receipt.logs;
  status = r.receipt.status;
  effective_gas_price = hex_of_text (of_decimal r.receipt.effective_gas_price);
}

module _ (db : Database) (f : Forms) (c : Crypto) where
  open db use {Db, get}

  -- A text that is no receipt gives none.
  unfoldable pub get_receipt : Db → Text → Option ReceiptAnswer
  unfolding receipt_answer
  get_receipt d hash = do
    data_bytes ← get d (receipt_key hash)
    r ← f.parse_receipt data_bytes
    some (receipt_answer r)
