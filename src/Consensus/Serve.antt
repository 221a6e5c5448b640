-- ===== src/Consensus/Serve.antt =====
-- What a node answers to a request for blocks.
use Prim.Native.Nat.{min}
use bery_bc.Base.{
  ℕ, suc, zero, ◌+◌, ◌-◌, ◌≤◌, ◌≡◌, sym, ◌∙◌, Option, some, List, [], ◌∷◌, length, get_elem?, arith,
}
use bery_bc.Base.Throws.{by_option}
use bery_bc.Core.Block.{Block}
use bery_bc.Consensus.Node.{Node}
use bery_bc.Consensus.Start.{blocks, get_blocks, chain_from, handle_sync_request}

plus_zero : (n : ℕ) → n + 0 ≡ n
plus_zero n = omega arith

plus_suc : (n i : ℕ) → n + suc i ≡ n + 1 + i
plus_suc n i = omega arith

zero_le : (n : ℕ) → 0 ≤ n
zero_le n = omega arith

suc_le : (m n : ℕ) → m ≤ n → suc m ≤ suc n
suc_le m n h = omega (arith, h)

-- A list is the chain from a height on.
abbrev pub IsRun : (ℕ → Option Block) → ℕ → List Block → Type 0
IsRun chain start bs = (i : ℕ) (b : Block) → get_elem? bs i ≡ some b → chain (start + i) ≡ some b

length-chain_from :
    (chain : ℕ → Option Block) (count height : ℕ) → length (chain_from chain count height) ≤ count
unfolding chain_from
length-chain_from chain zero height = omega arith
length-chain_from chain (suc count) height =
    by_option {x = []} {f = λ b. b ∷ chain_from chain count (height + 1)}
      (λ bs. length bs ≤ suc count) (chain height) (λ e. zero_le (suc count))
      (λ b e. suc_le _ count (length-chain_from chain count (height + 1)))

no_blocks : (chain : ℕ → Option Block) (height : ℕ) → IsRun chain height []
no_blocks chain height i b h = cc

IsRun-cons :
    (chain : ℕ → Option Block) (height : ℕ) (b : Block) (bs : List Block)
    → chain height ≡ some b
    → IsRun chain (height + 1) bs
    → IsRun chain height (b ∷ bs)
IsRun-cons chain height b bs first rest zero x h = rw (plus_zero height) (first ∙ h)
IsRun-cons chain height b bs first rest (suc i) x h = rw (plus_suc height i) (rest i x h)

chain_from-IsRun :
    (chain : ℕ → Option Block) (count height : ℕ)
    → IsRun chain height (chain_from chain count height)
unfolding chain_from
chain_from-IsRun chain zero height = no_blocks chain height
chain_from-IsRun chain (suc count) height =
    by_option (IsRun chain height) (chain height) (λ e. no_blocks chain height)
      (λ b e. IsRun-cons chain height b _ e (chain_from-IsRun chain count (height + 1)))

blocks-inj : (bs cs : List Block) → blocks bs ≡ blocks cs → bs ≡ cs
blocks-inj bs cs h = cc

count_bound : (start end : ℕ) → min end (start + 100) + 1 - start ≤ 101
count_bound start end = omega arith

-- An answer with blocks has at most 101 of them, and they are the blocks of the chain from the
-- height that was asked for, in order.
pub get_blocks-IsRun :
    {W : Type 0} (chain : ℕ → Option Block) (start end : ℕ) (n : Node W) (bs : List Block)
    → handle_sync_request chain (get_blocks start end) n ≡ blocks bs
    → (length bs ≤ 101) × IsRun chain start bs
unfolding handle_sync_request
get_blocks-IsRun chain start end n bs h = rw (sym (blocks-inj _ bs h)) (
  omega (
    arith,
    length-chain_from chain (min end (start + 100) + 1 - start) start,
    count_bound start end,
  ),
  chain_from-IsRun chain (min end (start + 100) + 1 - start) start,
)
