-- ===== src/Api/PageLaws.antt =====
-- The pages of the chain, against the chain.
use mathlib.Core.List.{append-nil}
use bery_bc.Base.{
  ℕ, suc, zero, ◌+◌, ◌-◌, ◌≤◌, ◌<◌, ◌≡◌, refl, sym, ◌∙◌, ap, inl, inr, Option, none, some, List, [],
  ◌++◌, leb, leb→le, if◌then◌else◌, Bool-cases, arith,
}
use bery_bc.Base.Int.{pos, ◌+ℤ◌, ◌-ℤ◌, pos-sub}
use bery_bc.Core.Block.{Block}
use bery_bc.Api.Pages.{or_number, max_zero, walk_down, page, or_skip}

or_skip-append : (o : Option Block) (bs cs : List Block) → or_skip o (bs ++ cs) ≡ or_skip o bs ++ cs
or_skip-append none bs cs = refl
or_skip-append (some b) bs cs = refl

walk_down-split :
    (chain : ℕ → Option Block) (a b height : ℕ)
    → walk_down chain (a + b) height ≡ walk_down chain a height ++ walk_down chain b (height - a)
unfolding walk_down
walk_down-split chain zero b height =
    let e : 0 + b ≡ b = omega arith in let g : height - 0 ≡ height = omega arith in rw (e, g) refl
walk_down-split chain (suc a) b height =
    let e : suc a + b ≡ suc (a + b) = omega arith in
    let g : height - suc a ≡ height - 1 - a = omega arith in
    rw (e, g)
      (ap (or_skip (chain height)) (walk_down-split chain a b (height - 1))
        ∙ or_skip-append (chain height) (walk_down chain a (height - 1)) _)

or_number-pos : (n : ℕ) → or_number (some (pos n)) (pos 0) ≡ pos n
unfolding or_number
or_number-pos zero = refl
or_number-pos (suc n) = refl

-- The first height of the page after `start`.
end_height : (start limit : ℕ) → max_zero (pos start -ℤ pos (suc limit) +ℤ pos 1) ≡ start - limit
unfolding max_zero ◌+ℤ◌ ◌-ℤ◌
end_height start limit = ground arith

page-eq :
    (chain : ℕ → Option Block) (head limit offset : ℕ)
    → offset ≤ head
    → (page chain (some head) (some (pos (suc limit))) (some (pos offset))).0
      ≡ walk_down chain (head - offset + 1 - (head - offset - limit)) (head - offset)
unfolding page or_number max_zero
page-eq chain head limit offset h =
    rw (or_number-pos offset, pos-sub head offset h, end_height (head - offset) limit) refl

-- A client that asks for page after page, until the offset is beyond the head.
abbrev pub collect : (ℕ → Option Block) → ℕ → ℕ → ℕ → ℕ → List Block
collect chain head limit zero offset = []
collect chain head limit (suc fuel) offset =
    let rest = collect chain head limit fuel (offset + limit) in
    if leb offset head
    then (page chain (some head) (some (pos limit)) (some (pos offset))).0 ++ rest
    else []

none_left :
    (chain : ℕ → Option Block) (head offset : ℕ)
    → head < offset
    → [] ≡ walk_down chain (head + 1 - offset) (head - offset)
unfolding walk_down
none_left chain head offset h = let e : head + 1 - offset ≡ 0 = omega arith in rw (e) refl

join_at :
    (chain : ℕ → Option Block) (a b k h : ℕ) {g : ℕ}
    → a + b ≡ k
    → g ≡ h - a
    → walk_down chain a h ++ walk_down chain b g ≡ walk_down chain k h
join_at chain a b k h e f =
    rw (f) (sym (walk_down-split chain a b h) ∙ ap (λ n. walk_down chain n h) e)

join_end :
    (chain : ℕ → Option Block) (a b k h g : ℕ)
    → b ≡ 0
    → a ≡ k
    → walk_down chain a h ++ walk_down chain b g ≡ walk_down chain k h
unfolding walk_down
join_end chain a b k h g e f = rw (e) (append-nil _ ∙ ap (λ n. walk_down chain n h) f)

collect-eq :
    (chain : ℕ → Option Block) (head limit fuel offset : ℕ)
    → head + 1 ≤ fuel + offset
    → collect chain head (suc limit) fuel offset
      ≡ walk_down chain (head + 1 - offset) (head - offset)
collect-eq chain head limit zero offset h = none_left chain head offset (omega (arith, h))
collect-eq chain head limit (suc fuel) offset h = elim (Bool-cases (leb offset head)) [
  | inr e ↦ rw (e) (none_left chain head offset (ground arith))
  | inl e ↦
      let low = leb→le offset head e in
      let again = collect-eq chain head limit fuel (offset + suc limit) (omega (arith, h)) in
      rw (e, page-eq chain head limit offset low, again)
        (elim (Bool-cases (leb (offset + suc limit) head)) [
          | inl more ↦ join_at chain _ _ _ _ (ground arith) (ground arith)
          | inr last ↦ join_end chain _ _ _ _ _ (ground arith) (ground arith)
        ])
]

-- The blocks below a height, the newest first.
abbrev pub newest_first : (ℕ → Option Block) → ℕ → List Block
newest_first chain zero = []
newest_first chain (suc n) = or_skip (chain n) (newest_first chain n)

walk_down-newest :
    (chain : ℕ → Option Block) (n : ℕ) → walk_down chain n (n - 1) ≡ newest_first chain n
unfolding walk_down
walk_down-newest chain zero = refl
walk_down-newest chain (suc n) =
    let e : suc n - 1 ≡ n = omega arith in
    rw (e) (ap (or_skip (chain n)) (walk_down-newest chain n))

whole :
    (chain : ℕ → Option Block) (head : ℕ)
    → walk_down chain (head + 1 - 0) (head - 0) ≡ newest_first chain (head + 1)
whole chain head =
    let e : head + 1 - 0 ≡ head + 1 = omega arith in
    let g : head - 0 ≡ head + 1 - 1 = omega arith in rw (e, g) (walk_down-newest chain (head + 1))

-- A client that asks for page after page of one size, often enough, gets the blocks of all heights up
-- to the head, each once and the newest first.
pub collect-chain :
    (chain : ℕ → Option Block) (head limit fuel : ℕ)
    → head + 1 ≤ fuel
    → collect chain head (suc limit) fuel 0 ≡ newest_first chain (head + 1)
collect-chain chain head limit fuel h =
    collect-eq chain head limit fuel 0 (omega (arith, h)) ∙ whole chain head
