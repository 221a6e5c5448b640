-- ===== src/Consensus/Agreement.antt =====
-- The precommits of one round at two nodes.
use bery_bc.Base.{
  ℕ, ◌+◌, ◌*◌, ◌≤◌, ◌<◌, ◌≡◌, ◌≢◌, refl, sym, ◌∙◌, ap, inl, inr, Bool, true, false, Option, none,
  some, List, [], ◌∷◌, length, map, same, same-eq, same_iff, Bool-cases, if◌then◌else◌, arith,
}
use bery_bc.Base.TextMap.{lookup}
use bery_bc.Bytes.{Text}
use bery_bc.Consensus.Node.{Vote, Node, bucket, precommit, total_power, get_quorum, find_vote}
use bery_bc.Consensus.Round.{with_power}
use bery_bc.Consensus.Quorum.{or_zero, counted_as, count_votes}
use bery_bc.Consensus.Majority.{supporters, or_zero-count_votes, quorum_overlap}

abbrev pub count : (Text → Bool) → List Text → ℕ
count p [] = 0
count p (a ∷ l) = if p a then count p l + 1 else count p l

abbrev pub listed : Text → List Text → Bool
listed a [] = false
listed a (b ∷ l) = if same a b then true else listed a l

-- Every vote is of a validator of the list.
abbrev pub AllListed : List Text → List Vote → Type 0
AllListed l [] = Unit {0}
AllListed l (v ∷ vs) = (listed v.validator l ≡ true) × AllListed l vs

-- No validator has two votes.
abbrev pub IsOnce : List Vote → Type 0
IsOnce [] = Unit {0}
IsOnce (v ∷ vs) = (find_vote v.validator vs ≡ none) × IsOnce vs

abbrev is_for : Text → Option Vote → Bool
is_for h none = false
is_for h (some v) = same h (counted_as v)

-- The hash is what the vote of a validator counts for.
abbrev votes_for : Text → List Vote → Text → Bool
votes_for h vs a = is_for h (find_vote a vs)

-- One more value at a place of the list.
abbrev with_value : Text → Bool → (Text → Bool) → Text → Bool
with_value x b p a = if same x a then b else p a

abbrev one : Bool → ℕ
one true = 1
one false = 0

count-with_value_le :
    (x : Text) (b : Bool) (p : Text → Bool) (l : List Text)
    → p x ≡ false
    → count p l ≤ count (with_value x b p) l
count-with_value_le x b p [] h = omega arith
count-with_value_le x b p (a ∷ l) h = elim (Bool-cases (same x a)) [
  | inl e ↦
      let g : p a ≡ false = ap p (sym (same-eq x a e)) ∙ h in
      rw (e, g) (ground (arith, count-with_value_le x b p l h))
  | inr e ↦ rw (e) (ground (arith, count-with_value_le x b p l h))
]

count-with_value :
    (x : Text) (b : Bool) (p : Text → Bool) (l : List Text)
    → p x ≡ false
    → listed x l ≡ true
    → count p l + one b ≤ count (with_value x b p) l
count-with_value x b p [] h m = cc
count-with_value x b p (a ∷ l) h m = elim (Bool-cases (same x a)) [
  | inl e ↦
      let g : p a ≡ false = ap p (sym (same-eq x a e)) ∙ h in
      rw (e, g) (ground (arith, count-with_value_le x b p l h))
  | inr e ↦ rw (e) (ground (arith, count-with_value x b p l h (rw (e) at m)))
]

count_same : (p q : Text → Bool) (l : List Text) → ((a : Text) → p a ≡ q a) → count p l ≡ count q l
count_same p q [] h = refl
count_same p q (a ∷ l) h = rw (h a, count_same p q l h) refl

votes_for-cons :
    (h : Text) (v : Vote) (vs : List Vote) (a : Text)
    → with_value v.validator (same h (counted_as v)) (votes_for h vs) a ≡ votes_for h (v ∷ vs) a
unfolding find_vote
votes_for-cons h v vs a = elim (Bool-cases (same v.validator a)) [
  | inl e ↦ rw (e) refl
  | inr e ↦ rw (e) refl
]

-- The votes for a hash are of different validators of the list.
supporters_le :
    (h : Text) (l : List Text) (vs : List Vote)
    → IsOnce vs
    → AllListed l vs
    → supporters h vs ≤ count (votes_for h vs) l
unfolding find_vote
supporters_le h l [] o m = omega arith
supporters_le h l (v ∷ vs) (first, o) (here, m) =
    let rest = supporters_le h l vs o m in
    let fresh : votes_for h vs v.validator ≡ false = rw (first) refl in
    let more = count-with_value v.validator (same h (counted_as v)) (votes_for h vs) l fresh here in
    let e = count_same _ _ l (votes_for-cons h v vs) in ground (arith, rest, more, e)

-- What two sets have together, and in common.
both :
    (p q f : Text → Bool) (l : List Text)
    → ((a : Text) → p a ≡ true → q a ≡ true → f a ≡ true)
    → count p l + count q l ≤ length l + count f l
both p q f [] h = omega arith
both p q f (a ∷ l) h = ground (arith, both p q f l h, h a)

total_power-map : (l : List Text) → total_power (map with_power l) ≡ 10 * length l
unfolding total_power
total_power-map [] = refl
total_power-map (a ∷ l) = omega (arith, total_power-map l)

-- A validator that is not faulty has the same precommit at both nodes, if both hold one.
abbrev pub IsHonest : (Text → Bool) → List Vote → List Vote → Type 0
IsHonest faulty vs ws =
    (a : Text) (v w : Vote)
    → faulty a ≡ false
    → find_vote a vs ≡ some v
    → find_vote a ws ≡ some w
    → counted_as v ≡ counted_as w

is_for-some :
    (h : Text) (o : Option Vote)
    → is_for h o ≡ true
    → (v : Vote) × (o ≡ some v) × (h ≡ counted_as v)
is_for-some h none e = cc
is_for-some h (some v) e = (v, refl, same-eq h (counted_as v) e)

two_hashes :
    (h k : Text) (faulty : Text → Bool) (vs ws : List Vote)
    → h ≢ k
    → IsHonest faulty vs ws
    → (a : Text) → votes_for h vs a ≡ true
    → votes_for k ws a ≡ true
    → faulty a ≡ true
two_hashes h k faulty vs ws differ honest a p q = elim (Bool-cases (faulty a)) [
  | inl e ↦ e
  | inr e ↦
      let (v, found, for_h) = is_for-some h (find_vote a vs) p in
      let (w, met, for_k) = is_for-some k (find_vote a ws) q in
      absurd (differ (for_h ∙ honest a v w e found met ∙ sym for_k))
]

-- What the code counts for a hash.
abbrev pub counted : Text → List Vote → ℕ
counted h vs = or_zero (lookup h (count_votes vs []))

counted-eq : (h : Text) (vs : List Vote) → counted h vs ≡ 10 * supporters h vs
unfolding lookup
counted-eq h vs = or_zero-count_votes h vs [] ∙ omega arith

not_same : (h k : Text) → same h k ≡ false → h ≢ k
not_same h k e = λ g. ground (arith, (same_iff h k).1 g)

no_conflict :
    (l : List Text) (faulty : Text → Bool) (vs ws : List Vote) (h k : Text)
    → 3 * count faulty l < length l
    → IsOnce vs × AllListed l vs
    → IsOnce ws × AllListed l ws
    → IsHonest faulty vs ws
    → get_quorum (map with_power l) ≤ counted h vs
    → get_quorum (map with_power l) ≤ counted k ws
    → h ≢ k
    → ⊥
no_conflict l faulty vs ws h k few (once_v, in_v) (once_w, in_w) honest enough_h enough_k differ =
    let overlap =
      quorum_overlap (map with_power l) (counted h vs) (counted k ws) enough_h enough_k in
    let a = supporters_le h l vs once_v in_v in
    let b = supporters_le k l ws once_w in_w in
    let c = both _ _ faulty l (two_hashes h k faulty vs ws differ honest) in
    omega (arith, few, overlap, a, b, c, counted-eq h vs, counted-eq k ws, total_power-map l)

-- The precommits that a node holds.
abbrev pub precommits : {W : Type 0} → ℕ → ℕ → Node W → List Vote
precommits height round n =
    bucket (record { height = height; round = round; type = precommit }) n.votes

-- If fewer than a third of the validators are faulty, and the precommits of a height and round that two
-- nodes hold are one for each validator, of validators only, and the same at both nodes for those that
-- are not faulty, then two hashes that reach the quorum, one at each node, are the same.
pub quorums_agree :
    {W : Type 0} (l : List Text) (faulty : Text → Bool) (height round : ℕ) (n m : Node W)
    (h k : Text)
    → n.validators ≡ map with_power l
    → m.validators ≡ map with_power l
    → 3 * count faulty l < length l
    → IsOnce (precommits height round n) × AllListed l (precommits height round n)
    → IsOnce (precommits height round m) × AllListed l (precommits height round m)
    → IsHonest faulty (precommits height round n) (precommits height round m)
    → get_quorum n.validators ≤ counted h (precommits height round n)
    → get_quorum m.validators ≤ counted k (precommits height round m)
    → h ≡ k
quorums_agree l faulty height round n m h k same_n same_m few good_n good_m honest enough_h
      enough_k =
    elim (Bool-cases (same h k)) [
      | inl e ↦ same-eq h k e
      | inr e ↦ absurd (
          no_conflict l faulty (precommits height round n) (precommits height round m) h k few
            good_n good_m honest (rw (same_n) at enough_h) (rw (same_m) at enough_k)
            (not_same h k e))
    ]
