-- ===== src/Tests/Restart.antt =====
-- Tests of the synchronisation, of a restart and of the turns of the proposers.
use bery_bc.Base.{
  ℕ, ◌≡◌, refl, sym, ◌∙◌, ◌<◌, Bool, true, false, none, some, List, [], ◌∷◌, ◌&&◌, ltb, ◌+◌, arith,
}
use bery_bc.Base.Throws.{some-inj}
use bery_bc.Bytes.{Bytes, write_be}
use bery_bc.Bytes.HexLaws.{IsBytes}
use bery_bc.Core.Block.{header_hash}
use bery_bc.Crypto.Toy.{toy}
use bery_bc.Consensus.Node.{Node, get_proposer}
use bery_bc.Consensus.Round.{with_power}
use bery_bc.Consensus.Start.{Peers, fetch, start}
use bery_bc.Consensus.Catchup.{fetch_ends}
use bery_bc.Consensus.Restart.{start-save_block}
use bery_bc.Consensus.Rotation.{proposes_in_turn}
use bery_bc.Storage.Database.{map_database, map_database-IsDatabase}
use bery_bc.Storage.Blocks.{save_block, get_slashed_validators}
use bery_bc.Vm.Staking.{JsonLists}
use bery_bc.Tests.Data.{header}
use bery_bc.Tests.Core.{small_block}
use bery_bc.Tests.Forms.{toy_forms, toy_forms-IsReadable}
use bery_bc.Tests.Storage.{small_block-IsSavable}
use bery_bc.Tests.Consensus.{setup, toy_ledger, node, four}

abbrev quiet : Peers
quiet = record { statuses = some 7 ∷ []; blocks = λ k start end. some (small_block ∷ []) }

fetch_ends_example :
    fetch setup toy_ledger (2 + 9) quiet 7 0 node ≡ fetch setup toy_ledger 2 quiet 7 0 node
fetch_ends_example = fetch_ends setup toy_ledger quiet 7 2 9 0 node (omega arith)

all_bytes : List ℕ → Bool
all_bytes [] = true
all_bytes (b ∷ bs) = ltb b 256 && all_bytes bs

all_bytes-IsBytes : (bs : List ℕ) → all_bytes bs ≡ true → IsBytes bs
unfolding all_bytes
all_bytes-IsBytes [] h = tt
all_bytes-IsBytes (b ∷ bs) h = (ground arith, all_bytes-IsBytes bs (ground arith))

hashed : (h : Bytes) × (header_hash toy header ≡ some h)
unfolding header_hash write_be
hashed = (_, refl)

header_bytes : (hash : Bytes) → header_hash toy header ≡ some hash → IsBytes hash
unfolding hashed all_bytes
header_bytes hash h = rw (some-inj (sym h ∙ hashed.1)) (all_bytes-IsBytes hashed.0 refl)

abbrev no_lists : JsonLists
no_lists = record { stringify = λ l. []; parse = λ t. none }

start-save_block_example :
    (d' : map_database.Db) × (m : Node ℕ) × (save_block map_database toy_forms toy small_block []
      ≡ some d')
    × (start setup toy_ledger map_database toy_forms no_lists toy d' node ≡ some m)
    × (m.height ≡ 3)
    × (header_hash toy small_block.header ≡ some m.last_commit_hash)
    × (m.stopped ≡ false)
    × (m.slashed_validators ≡ get_slashed_validators map_database toy_forms toy no_lists d')
start-save_block_example =
    start-save_block setup toy_ledger map_database map_database-IsDatabase toy_forms
      toy_forms-IsReadable no_lists small_block [] node small_block-IsSavable header_bytes

proposes_in_turn_example :
    (round : ℕ) × (round < 4) × (get_proposer four 7 round ≡ some (with_power (2 ∷ [])))
proposes_in_turn_example = proposes_in_turn four 7 1 (with_power (2 ∷ [])) refl
