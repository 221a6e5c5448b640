-- ===== src/Tests/Storage.antt =====
-- Tests of the block store, over a map.
use bery_bc.Base.{◌≡◌, ◌↔◌, Bool, refl, true, none, some, [], ◌∷◌}
use bery_bc.Base.Int.{pos}
use bery_bc.Bytes.{Bytes, to_hex, write_be}
use bery_bc.Crypto.Toy.{toy}
use bery_bc.Core.Transaction.{Transaction}
use bery_bc.Core.Transaction
use bery_bc.Core.Block.{header_hash}
use bery_bc.Vm.Executor.{Log, Receipt}
use bery_bc.Storage.Database.{map_database, map_database-IsDatabase}
use bery_bc.Storage.Blocks.{save_block, get_block, get_head}
use bery_bc.Storage.Chain.{extend}
use bery_bc.Storage.Refinement.{IsSavable, save_block_refines}
use bery_bc.Storage.Logs.{LogFilter, answers_of, save_receipts, logs_at}
use bery_bc.Storage.FilterLaws.{IsMatch, answers_for}
use bery_bc.Storage.LogLaws.{answers_of-save_receipts}
use bery_bc.Storage.Bloom.{compute_logs_bloom}
use bery_bc.Storage.BloomLaws.{Covers, compute_logs_bloom-Covers}
use bery_bc.Tests.Core.{small_block, coinbase_tx-IsPlain, header-IsPlainHeader, written_block}
use bery_bc.Tests.Data.{coinbase_tx}
use bery_bc.Tests.Forms.{toy_forms, toy_forms-IsReadable}

pub small_block-IsSavable : IsSavable toy small_block
small_block-IsSavable = record {
  plain_header = header-IsPlainHeader;
  plain_transactions = (coinbase_tx-IsPlain, tt);
  json = written_block.0;
  json_eq = written_block.1;
}

save_block_refines_example :
    (d' : map_database.Db) × (hash : Bytes) × (save_block map_database toy_forms toy small_block []
      ≡ some d')
    × (header_hash toy small_block.header ≡ some hash)
    × (get_block map_database toy_forms toy d'
        ≡ extend small_block (get_block map_database toy_forms toy []))
    × (get_head map_database toy_forms toy d'
        ≡ some (some (record { height = 3; hash = to_hex hash })))
save_block_refines_example =
    save_block_refines map_database map_database-IsDatabase toy_forms toy_forms-IsReadable toy
      small_block [] small_block-IsSavable

pub coinbase_hash : (h : Bytes) × (Transaction.hash toy coinbase_tx ≡ some h)
unfolding Transaction.hash write_be Transaction.get_bytes
coinbase_hash = (_, refl)

abbrev a_log : Log
a_log = record { address = b'a' ∷ b'1' ∷ []; topics = (b'0' ∷ b'7' ∷ []) ∷ []; payload = [] }

abbrev a_receipt : Receipt
a_receipt = record {
  transaction_hash = b'f' ∷ [];
  from = b'b' ∷ [];
  to = b'a' ∷ b'1' ∷ [];
  contract_address = none;
  gas_used = pos 21000;
  effective_gas_price = b'1' ∷ [];
  status = true;
  logs = a_log ∷ [];
  cumulative_gas_used = pos 21000;
  transaction_index = 0;
}

abbrev by_address : LogFilter
by_address = record { from_block = none; to_block = none; address = b'a' ∷ b'1' ∷ []; topics = [] }

answers_of-save_receipts_example :
    (matches : Log → Bool) × ((l : Log) → (matches l ≡ true) ↔ IsMatch (λ t. t) by_address l)
    × (answers_of
          (λ t. t)
          by_address
          (logs_at map_database toy_forms toy
            (save_receipts map_database toy_forms toy 3 (b'e' ∷ []) (a_receipt ∷ []) [])
            3)
        ≡ answers_for matches 3 (b'e' ∷ []) (a_receipt ∷ []))
answers_of-save_receipts_example =
    answers_of-save_receipts map_database map_database-IsDatabase toy_forms toy_forms-IsReadable toy
      (λ t. t) by_address 3 3 (b'e' ∷ []) (a_receipt ∷ []) []

compute_logs_bloom-Covers_example :
    (bloom : Bytes) × (compute_logs_bloom toy (a_log ∷ []) ≡ to_hex bloom)
    × Covers toy (a_log ∷ []) bloom
compute_logs_bloom-Covers_example = compute_logs_bloom-Covers toy (a_log ∷ [])
