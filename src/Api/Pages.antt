-- ===== src/Api/Pages.antt =====
-- `GET /v1/blocks`. The router registers two handlers for it, of which the first answers: the second,
-- which counts from the height of the consensus and not from the stored head, is never called.
use bery_bc.Base.{ℕ, suc, zero, ◌+◌, ◌-◌, Option, none, some, List, [], ◌∷◌}
use bery_bc.Base.Int.{ℤ, pos, negsuc, ◌+ℤ◌, ◌-ℤ◌}
use bery_bc.Core.Block.{Block}

-- `parseInt(query) || d`; NaN is `none`.
unfoldable pub or_number : Option ℤ → ℤ → ℤ
or_number none d = d
or_number (some (pos zero)) d = d
or_number (some (pos (suc n))) d = pos (suc n)
or_number (some (negsuc n)) d = negsuc n

-- `Math.max(0, n)`
unfoldable pub max_zero : ℤ → ℕ
max_zero (pos n) = n
max_zero (negsuc n) = 0

abbrev pub or_skip : Option Block → List Block → List Block
or_skip none bs = bs
or_skip (some b) bs = b ∷ bs

-- The loop over `count` heights from `height` downwards.
unfoldable pub walk_down : (ℕ → Option Block) → ℕ → ℕ → List Block
walk_down chain zero height = []
walk_down chain (suc count) height = or_skip (chain height) (walk_down chain count (height - 1))

-- The answer: the blocks, and how many there are. A height is below 2 ^ 53.
unfoldable pub page : (ℕ → Option Block) → Option ℕ → Option ℤ → Option ℤ → List Block × ℕ
unfolding or_number max_zero walk_down
page chain none limit offset = ([], 0)
page chain (some head) limit offset =
    let start = max_zero (pos head -ℤ or_number offset (pos 0)) in
    let end = max_zero (pos start -ℤ or_number limit (pos 10) +ℤ pos 1) in
    (walk_down chain (start + 1 - end) start, head + 1)
