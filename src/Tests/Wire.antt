-- ===== src/Tests/Wire.antt =====
-- Texts of the messages of the network in which what is written is parsed.
use bery_bc.Base.{ℕ, ◌≡◌, refl, Option, none, some, List, []}
use bery_bc.Bytes.{Text}
use bery_bc.Consensus.Node.{Vote, VoteType, prevote, precommit}
use bery_bc.Consensus.Start.{SyncRequest, get_status, get_blocks, SyncAnswer, status, blocks}
use bery_bc.Core.Block.{Block, BlockHeader}
use bery_bc.Core.Transaction.{Transaction}
use bery_bc.Network.{Codecs, IsCodec}
use bery_bc.Network
use bery_bc.Tests.Codec.{Codec, number, pair, part, option, list, encode, decode, decode-encode}
use bery_bc.Tests.Forms.{text, integer, transaction_json, block_json}

transaction : Codec Transaction
transaction =
    part
      (λ t. (
        t.from,
        (
          t.to,
          (
            t.value,
            (t.nonce, (t.gas_limit, (t.gas_price, (t.payload, (t.signature, t.eth_hash))))),
          ),
        ),
      ))
      (λ (f, (o, (v, (n, (g, (p, (d, (s, e)))))))). record {
        from = f;
        to = o;
        value = v;
        nonce = n;
        gas_limit = g;
        gas_price = p;
        payload = d;
        signature = s;
        eth_hash = e;
      })
      (λ t. refl)
      (pair text (
        pair text (
          pair integer (
            pair number
              (pair number (pair integer (pair text (pair (option text) (option text)))))))))

header : Codec BlockHeader
header =
    part
      (λ h. (
        h.version,
        (
          h.height,
          (
            h.round,
            (
              h.timestamp,
              (h.parent_hash, (h.state_root, (h.transactions_root, (h.validator, h.signature)))),
            ),
          ),
        ),
      ))
      (λ (v, (n, (r, (t, (p, (s, (m, (a, g)))))))). record {
        version = v;
        height = n;
        round = r;
        timestamp = t;
        parent_hash = p;
        state_root = s;
        transactions_root = m;
        validator = a;
        signature = g;
      })
      (λ h. refl)
      (pair number (
        pair number (
          pair number (pair number (pair text (pair text (pair text (pair text (option text)))))))))

block : Codec Block
block =
    part (λ b. (b.header, b.transactions)) (λ (h, ts). record { header = h; transactions = ts })
      (λ b. refl) (pair header (list transaction))

range : SyncRequest → Option (ℕ × ℕ)
range get_status = none
range (get_blocks start end) = some (start, end)

of_range : Option (ℕ × ℕ) → SyncRequest
of_range none = get_status
of_range (some (start, end)) = get_blocks start end

of_range-range : (r : SyncRequest) → of_range (range r) ≡ r
unfolding of_range range
of_range-range get_status = refl
of_range-range (get_blocks start end) = refl

request : Codec SyncRequest
request = part range of_range of_range-range (option (pair number number))

parts : SyncAnswer → Option (ℕ × Text) × List Block
parts (status height hash) = (some (height, hash), [])
parts (blocks bs) = (none, bs)

of_parts : Option (ℕ × Text) × List Block → SyncAnswer
of_parts (none, bs) = blocks bs
of_parts (some (height, hash), bs) = status height hash

of_parts-parts : (a : SyncAnswer) → of_parts (parts a) ≡ a
unfolding of_parts parts
of_parts-parts (status height hash) = refl
of_parts-parts (blocks bs) = refl

answer : Codec SyncAnswer
answer = part parts of_parts of_parts-parts (pair (option (pair number text)) (list block))

kind : VoteType → Option ℕ
kind prevote = none
kind precommit = some 0

of_kind : Option ℕ → VoteType
of_kind none = prevote
of_kind (some n) = precommit

of_kind-kind : (t : VoteType) → of_kind (kind t) ≡ t
unfolding of_kind kind
of_kind-kind prevote = refl
of_kind-kind precommit = refl

vote : Codec Vote
vote =
    part (λ v. (v.height, (v.round, (v.type, (v.block_hash, (v.validator, v.signature))))))
      (λ (n, (r, (t, (b, (a, s))))). record {
        height = n;
        round = r;
        type = t;
        block_hash = b;
        validator = a;
        signature = s;
      })
      (λ v. refl)
      (pair number (
        pair number (
          pair (part kind of_kind of_kind-kind (option number))
            (pair (option text) (pair text text)))))

abbrev texts : {A : Type 0} → Codec A → Network.Codec A
texts c = record { stringify = encode c; parse = decode c }

pub texts-IsCodec : {A : Type 0} (c : Codec A) → IsCodec (texts c)
texts-IsCodec c = record { parse-stringify = decode-encode c }

pub toy_codecs : Codecs
toy_codecs = record {
  blocks = texts block_json;
  transactions = texts transaction_json;
  votes = texts vote;
  requests = texts request;
  answers = texts answer;
}

pub transactions-IsCodec : IsCodec toy_codecs.transactions
unfolding toy_codecs
transactions-IsCodec = texts-IsCodec transaction_json

pub requests-IsCodec : IsCodec toy_codecs.requests
unfolding toy_codecs
requests-IsCodec = texts-IsCodec request

pub answers-IsCodec : IsCodec toy_codecs.answers
unfolding toy_codecs
answers-IsCodec = texts-IsCodec answer
