-- ===== src/Consensus/Majority.antt =====
-- The quorum and the count of the votes.
use bery_bc.Base.{
  ℕ, ◌+◌, ◌*◌, ◌≤◌, ◌<◌, ◌≡◌, refl, false, List, [], ◌∷◌, same, same-eq, inl, inr, Bool-cases, leb,
  same_iff, same_refl, if◌then◌else◌,
}
use bery_bc.Base.TextMap.{TextMap, lookup, insert, lookup-insert}
use bery_bc.Bytes.{Text}
use bery_bc.Consensus.Node.{
  Vote, precommit, Validator, Ledger, Node, bucket, total_power, get_quorum,
}
use bery_bc.Consensus.Round.{Setup}
use bery_bc.Consensus.Quorum.{or_zero, counted_as, count_votes, precommit_loop, check_precommits}
use native.Mathlib.Omega.{arith}

-- Two sets of votes that each reach the quorum have more than a third of the whole power in common:
-- what they have together is more than four thirds of it.
pub quorum_overlap :
    (vs : List Validator) (p q : ℕ)
    → get_quorum vs ≤ p
    → get_quorum vs ≤ q
    → 4 * total_power vs < 3 * (p + q)
unfolding get_quorum
quorum_overlap vs p q hp hq = omega arith

-- All validators together reach the quorum, if they have a power of three or more.
pub quorum_reachable : (vs : List Validator) → 3 ≤ total_power vs → get_quorum vs ≤ total_power vs
unfolding get_quorum
quorum_reachable vs h = omega arith

-- The number of votes for a hash.
abbrev pub supporters : Text → List Vote → ℕ
supporters h [] = 0
supporters h (v ∷ vs) = if same h (counted_as v) then supporters h vs + 1 else supporters h vs

add_one_vote :
    (h k : Text) (m : TextMap ℕ)
    → or_zero (lookup h (insert k (or_zero (lookup k m) + 10) m))
      ≡ (if same h k then or_zero (lookup h m) + 10 else or_zero (lookup h m))
add_one_vote h k m = ground (arith, lookup-insert h k (or_zero (lookup k m) + 10) m, same_iff h k)

pub or_zero-count_votes :
    (h : Text) (vs : List Vote) (m : TextMap ℕ)
    → or_zero (lookup h (count_votes vs m)) ≡ or_zero (lookup h m) + 10 * supporters h vs
unfolding count_votes
or_zero-count_votes h [] m = omega arith
or_zero-count_votes h (v ∷ vs) m = ground (
  arith,
  or_zero-count_votes h vs (insert (counted_as v) (or_zero (lookup (counted_as v) m) + 10) m),
  add_one_vote h (counted_as v) m,
)

-- Every count, with the votes still to come, is below `q`.
AllBelow : ℕ → List Vote → TextMap ℕ → Type 0
AllBelow q vs [] = Unit
AllBelow q vs ((k, power) ∷ m) = (power + 10 * supporters k vs < q) × AllBelow q vs m

drop_vote-AllBelow :
    (q : ℕ) (v : Vote) (vs : List Vote) (m : TextMap ℕ) → AllBelow q (v ∷ vs) m → AllBelow q vs m
unfolding AllBelow
drop_vote-AllBelow q v vs [] h = tt
drop_vote-AllBelow q v vs ((k, power) ∷ m) (h, hs) = (ground arith, drop_vote-AllBelow q v vs m hs)

insert-AllBelow :
    (q : ℕ) (v : Vote) (vs : List Vote) (k : Text) (x : ℕ) (m : TextMap ℕ)
    → x + 10 * supporters k vs < q
    → AllBelow q (v ∷ vs) m
    → AllBelow q vs (insert k x m)
unfolding AllBelow insert
insert-AllBelow q v vs k x [] b h = (b, tt)
insert-AllBelow q v vs k x ((j, power) ∷ m) b (h, hs) = elim (Bool-cases (same k j)) [
  | inl e ↦ rw (e) (rw (← same-eq k j e) b, drop_vote-AllBelow q v vs m hs)
  | inr e ↦ rw (e) (ground arith, insert-AllBelow q v vs k x m b hs)
]

count_votes-AllBelow :
    (q : ℕ) (vs : List Vote) (m : TextMap ℕ)
    → ((h : Text) → or_zero (lookup h m) + 10 * supporters h vs < q)
    → AllBelow q vs m
    → AllBelow q [] (count_votes vs m)
unfolding count_votes
count_votes-AllBelow q [] m b h = h
count_votes-AllBelow q (v ∷ vs) m b h =
    let k = counted_as v in
    let x = or_zero (lookup k m) + 10 in
    count_votes-AllBelow q vs (insert k x m) (λ j. ground (arith, b j, add_one_vote j k m))
      (insert-AllBelow q v vs k x m (ground (arith, b k, same_refl k)) h)

above : (q p : ℕ) → p + 10 * 0 < q → leb q p ≡ false
above q p h = ground arith

module _ (s : Setup) (l : Ledger) where
  precommit_loop-AllBelow :
      (q height round : ℕ) (m : TextMap ℕ) (n : Node (Ledger.World l))
      → AllBelow q [] m
      → precommit_loop s l q height round m n ≡ n
  unfolding precommit_loop AllBelow
  precommit_loop-AllBelow q height round [] n h = refl
  precommit_loop-AllBelow q height round ((hash, power) ∷ m) n (h, hs) =
      rw (above q power h) (precommit_loop-AllBelow q height round m n hs)

  below_start :
      {q : ℕ} (f : Text → ℕ)
      → ((h : Text) → 10 * f h < q)
      → (h : Text) → or_zero (lookup h []) + 10 * f h < q
  unfolding lookup
  below_start f b h = ground (arith, b h)

  -- No commit and no change of round comes from precommits as long as the votes of the round for
  -- each hash, with ten for each vote, are below the quorum.
  pub check_precommits_below_quorum :
      (height round : ℕ) (n : Node (Ledger.World l))
      → ((h : Text)
          → 10
              * supporters h
                  (bucket (record { height = height; round = round; type = precommit }) n.votes)
            < get_quorum n.validators)
      → check_precommits s l height round n ≡ n
  unfolding check_precommits AllBelow
  check_precommits_below_quorum height round n h =
      precommit_loop-AllBelow (get_quorum n.validators) height round _ n
        (count_votes-AllBelow (get_quorum n.validators) _ [] (below_start _ h) tt)
