-- ===== src/Tests/Forms.antt =====
-- Forms of the block store in which what is written is parsed.
use bery_bc.Base.{ℕ, zero, suc, ◌≡◌, refl, Bool, true, false}
use bery_bc.Base.Int.{ℤ, pos, negsuc}
use bery_bc.Bytes.{Text}
use bery_bc.Core.Transaction.Json.{TransactionJson}
use bery_bc.Core.Block.Json.{BlockJson, HeaderJson}
use bery_bc.Vm.Executor.{Log, Receipt}
use bery_bc.Storage.Database.{Forms, IsReadable, Head, StoredReceipt, StoredLog}
use bery_bc.Tests.Codec.{Codec, number, pair, part, option, list, encode, decode, decode-encode}

pub text : Codec Text
text = list number

truth : ℕ → Bool
truth zero = false
truth (suc n) = true

bit : Bool → ℕ
bit false = 0
bit true = 1

bit-truth : (b : Bool) → truth (bit b) ≡ b
unfolding truth bit
bit-truth true = refl
bit-truth false = refl

bool : Codec Bool
bool = part bit truth bit-truth number

signed : ℤ → Bool × ℕ
signed (pos n) = (true, n)
signed (negsuc n) = (false, n)

of_signed : Bool × ℕ → ℤ
of_signed (true, n) = pos n
of_signed (false, n) = negsuc n

of_signed-signed : (a : ℤ) → of_signed (signed a) ≡ a
unfolding of_signed signed
of_signed-signed (pos n) = refl
of_signed-signed (negsuc n) = refl

pub integer : Codec ℤ
integer = part signed of_signed of_signed-signed (pair bool number)

head : Codec Head
head =
    part (λ h. (h.height, h.hash)) (λ (n, t). record { height = n; hash = t }) (λ h. refl)
      (pair number text)

log : Codec Log
log =
    part (λ l. (l.address, (l.topics, l.payload)))
      (λ (a, (ts, d)). record { address = a; topics = ts; payload = d }) (λ l. refl)
      (pair text (pair (list text) text))

receipt : Codec Receipt
receipt =
    part
      (λ r. (
        r.transaction_hash,
        (
          r.from,
          (
            r.to,
            (
              r.contract_address,
              (
                r.gas_used,
                (
                  r.effective_gas_price,
                  (r.status, (r.logs, (r.cumulative_gas_used, r.transaction_index))),
                ),
              ),
            ),
          ),
        ),
      ))
      (λ (h, (from, (to, (c, (g, (p, (s, (ls, (cg, i))))))))). record {
        transaction_hash = h;
        from = from;
        to = to;
        contract_address = c;
        gas_used = g;
        effective_gas_price = p;
        status = s;
        logs = ls;
        cumulative_gas_used = cg;
        transaction_index = i;
      })
      (λ r. refl)
      (pair text (
        pair text (
          pair text (
            pair (option text)
              (pair integer (pair text (pair bool (pair (list log) (pair integer number)))))))))

stored_receipt : Codec StoredReceipt
stored_receipt =
    part (λ r. (r.receipt, (r.block_number, r.block_hash)))
      (λ (r, (n, h)). record { receipt = r; block_number = n; block_hash = h }) (λ r. refl)
      (pair receipt (pair number text))

stored_log : Codec StoredLog
stored_log =
    part (λ l. (l.log, (l.log_index, (l.transaction_hash, (l.block_number, l.block_hash)))))
      (λ (l, (i, (t, (n, h)))). record {
        log = l;
        log_index = i;
        transaction_hash = t;
        block_number = n;
        block_hash = h;
      })
      (λ l. refl) (pair log (pair number (pair text (pair number text))))

pub transaction_json : Codec TransactionJson
transaction_json =
    part
      (λ t. (
        t.from,
        (
          t.to,
          (
            t.value,
            (
              t.nonce,
              (t.gas_limit, (t.gas_price, (t.payload, (t.signature, (t.hash, t.eth_hash))))),
            ),
          ),
        ),
      ))
      (λ (from, (to, (v, (n, (g, (p, (d, (s, (h, e))))))))). record {
        from = from;
        to = to;
        value = v;
        nonce = n;
        gas_limit = g;
        gas_price = p;
        payload = d;
        signature = s;
        hash = h;
        eth_hash = e;
      })
      (λ t. refl)
      (pair text (
        pair text (
          pair text (
            pair number (
              pair number (
                pair (option text)
                  (pair (option text) (pair (option text) (pair text (option text))))))))))

header_json : Codec HeaderJson
header_json =
    part
      (λ h. (
        h.version,
        (
          h.height,
          (
            h.round,
            (
              h.timestamp,
              (
                h.parent_hash,
                (h.state_root, (h.transactions_root, (h.validator, (h.signature, h.hash)))),
              ),
            ),
          ),
        ),
      ))
      (λ (v, (n, (r, (t, (p, (s, (m, (a, (g, h))))))))). record {
        version = v;
        height = n;
        round = r;
        timestamp = t;
        parent_hash = p;
        state_root = s;
        transactions_root = m;
        validator = a;
        signature = g;
        hash = h;
      })
      (λ h. refl)
      (pair number (
        pair number (
          pair (option number) (
            pair number
              (pair text (pair text (pair text (pair text (pair (option text) text)))))))))

pub block_json : Codec BlockJson
block_json =
    part (λ b. (b.header, b.transactions)) (λ (h, ts). record { header = h; transactions = ts })
      (λ b. refl) (pair header_json (list transaction_json))

pub toy_forms : Forms
toy_forms = record {
  block_text = encode block_json;
  parse_block = decode block_json;
  head_text = encode head;
  parse_head = decode head;
  receipt_text = encode stored_receipt;
  parse_receipt = decode stored_receipt;
  logs_text = encode (list stored_log);
  parse_logs = decode (list stored_log);
}

pub toy_forms-IsReadable : IsReadable toy_forms
unfolding toy_forms
toy_forms-IsReadable = record {
  parse-block = decode-encode block_json;
  parse-head = decode-encode head;
  parse-receipt = decode-encode stored_receipt;
  parse-logs = decode-encode (list stored_log);
}
