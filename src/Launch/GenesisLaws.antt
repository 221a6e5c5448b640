-- ===== src/Launch/GenesisLaws.antt =====
-- What the genesis leaves in the state.
use mathlib.Core.List.{Memᴰ}
use bery_bc.Base.{
  ℕ, ◌≡◌, ◌<◌, ◌^◌, refl, sym, ◌∙◌, ap, true, false, some, List, [], ◌∷◌, length, same, same_iff,
  arith, inl, inr, Bool-cases,
}
use bery_bc.Base.Int.{pos, eqb_ℤ}
use bery_bc.Base.Throws.{some-inj}
use bery_bc.Bytes.{Bytes, Text, from_hex}
use bery_bc.Consensus.Node.{Validator}
use bery_bc.Crypto.{Crypto}
use bery_bc.State.Account.{Account, IsStorable, deserialize-serialize, length-serialize}
use bery_bc.State.Manager.{Trie, IsLawful, get_account, put_account}
use bery_bc.State.Manager.Laws.{get-put_account}
use bery_bc.Launch.Genesis.{address_of, part_of, funded, fund, seed_genesis}

-- A commit of a checkpoint keeps the entries.
pub record IsCommitting (tr : Trie) : Type 0 where
  pub commit-checkpoint :
      (d : tr.Db)
      → (d' : tr.Db) × (tr.commit (tr.checkpoint d) ≡ some d')
        × ((x : Bytes) → tr.get d' x ≡ tr.get d x)

get_account-kept :
    (tr : Trie) (k : Text) (d d' : tr.Db)
    → ((x : Bytes) → tr.get d' x ≡ tr.get d x)
    → get_account tr d' k ≡ get_account tr d k
unfolding get_account
get_account-kept tr k d d' kept = rw (get_account, kept (from_hex k)) refl

module _ (tr : Trie) (law : IsLawful tr) (a : Account) (storable : IsStorable a) where
  abbrev Reads : tr.Db → Text → Type 0
  Reads d k = get_account tr d k ≡ a

  same_bytes :
      (j k : Text) (d : tr.Db)
      → same (from_hex j) (from_hex k) ≡ true
      → get_account tr d j ≡ get_account tr d k
  unfolding get_account
  same_bytes j k d e = rw (get_account, (same_iff (from_hex j) (from_hex k)).0 e) refl

  -- A write of the account is read back, and an address that read it before reads it still.
  put_self :
      (k : Text) (d : tr.Db)
      → (d1 : tr.Db) × (put_account tr k a d ≡ some d1) × (get_account tr d1 k ≡ a)
  unfolding put_account get_account
  put_self k d =
      let (buf, written, read) = deserialize-serialize a storable in
      (
        tr.put (from_hex k) buf d,
        rw written,
        rw (get_account, law.get-put_self, length-serialize a storable buf written) read,
      )

  put_still : (k j : Text) (d d1 : tr.Db) → put_account tr k a d ≡ some d1 → Reads d j → Reads d1 j
  put_still k j d d1 e h = elim (Bool-cases (same (from_hex j) (from_hex k))) [
    | inl equal ↦
        let (d2, e2, read) = put_self k d in
        same_bytes j k d1 equal ∙ ap (λ y. get_account tr y k) (some-inj (sym e ∙ e2)) ∙ read
    | inr other ↦
        let (d2, e2, read, kept) = get-put_account tr law k j a d storable other in
        ap (λ y. get_account tr y j) (some-inj (sym e ∙ e2)) ∙ kept ∙ h
  ]

  module _ (c : Crypto) where
    -- The funding succeeds, and every validator's address then reads the account.
    fund-Reads :
        (vs : List Validator) (d : tr.Db)
        → (d' : tr.Db) × (fund tr c a vs d ≡ some d')
          × ((j : Text) → Reads d j → Reads d' j)
          × ((v : Validator) → Memᴰ v vs → Reads d' (address_of c v))
    unfolding fund
    fund-Reads [] d = (d, refl, (λ j h. h), (λ v h. elim h [ ]))
    fund-Reads (w ∷ vs) d =
        let (d1, e1, read) = put_self (address_of c w) d in
        let (d', e', still, all) = fund-Reads vs d1 in
        (
          d',
          rw (e1) e',
          (λ j h. still j (put_still (address_of c w) j d d1 e1 h)),
          by_place d' (still _ read) all,
        )
      where
        by_place :
            (d' : tr.Db)
            → Reads d' (address_of c w)
            → ((v : Validator) → Memᴰ v vs → Reads d' (address_of c v))
            → (v : Validator) → Memᴰ v (w ∷ vs)
            → Reads d' (address_of c v)
        by_place d' first rest v (Memᴰ.head e) =
            ap (λ u. get_account tr d' (address_of c u)) e ∙ first
        by_place d' first rest v (Memᴰ.tail h) = rest v h

funded-IsStorable : (wei : ℕ) → wei < 256 ^ 32 → IsStorable (funded wei)
funded-IsStorable wei fits = record {
  nonce_value = 0;
  nonce_nat = refl;
  nonce_fits = omega arith;
  balance_value = wei;
  balance_nat = refl;
  balance_fits = fits;
  root_length = refl;
  code_length = refl;
}

paid_test : (w : ℕ) → 0 < w → eqb_ℤ (pos w) (pos 0) ≡ false
paid_test w h = ground arith

-- No balance and no nonce.
abbrev pub IsUnused : Account → Type 0
IsUnused a = (a.balance ≡ pos 0) × (a.nonce ≡ pos 0)

module _ (tr : Trie) (law : IsLawful tr) (committing : IsCommitting tr) (c : Crypto) where
  funded_once :
      (total : ℕ) (v : Validator) (vs : List Validator) (d : tr.Db)
      → part_of total (length (v ∷ vs)) < 256 ^ 32
      → IsUnused (get_account tr d (address_of c v))
      → (d' : tr.Db) × (seed_genesis tr c total (v ∷ vs) d ≡ some d')
        × ((u : Validator)
            → Memᴰ u (v ∷ vs)
            → get_account tr d' (address_of c u) ≡ funded (part_of total (length (v ∷ vs))))
  unfolding seed_genesis
  funded_once total v vs d fits (no_balance, no_nonce) =
      let wei = part_of total (length (v ∷ vs)) in
      let (d1, e1, still, all) =
        fund-Reads tr law (funded wei) (funded-IsStorable wei fits) c (v ∷ vs) d in
      let (d2, e2, kept) = committing.commit-checkpoint d1 in
      (
        d2,
        rw (no_balance, no_nonce, e1) e2,
        λ u h. get_account-kept tr (address_of c u) d1 d2 kept ∙ all u h,
      )

  seeded_again :
      (total : ℕ) (v : Validator) (vs : List Validator) (d d' : tr.Db)
      → part_of total (length (v ∷ vs)) < 256 ^ 32
      → 0 < part_of total (length (v ∷ vs))
      → IsUnused (get_account tr d (address_of c v))
      → seed_genesis tr c total (v ∷ vs) d ≡ some d'
      → seed_genesis tr c total (v ∷ vs) d' ≡ some d'
  unfolding seed_genesis
  seeded_again total v vs d d' fits paid unused e =
      let (d2, e2, all) = funded_once total v vs d fits unused in
      let read : get_account tr d' (address_of c v) ≡ funded (part_of total (length (v ∷ vs))) =
        ap (λ y. get_account tr y (address_of c v)) (some-inj (sym e ∙ e2))
        ∙ all v (Memᴰ.head refl) in
      rw (read, paid_test (part_of total (length (v ∷ vs))) paid) refl

  -- Where the first validator's account is unused, the genesis succeeds: every validator's account then
  -- holds its part of the supply, and a further start on this state leaves it as it is. The part is not
  -- zero, and fits the encoding of an account.
  pub seed_genesis_funds :
      (total : ℕ) (v : Validator) (vs : List Validator) (d : tr.Db)
      → part_of total (length (v ∷ vs)) < 256 ^ 32
      → 0 < part_of total (length (v ∷ vs))
      → IsUnused (get_account tr d (address_of c v))
      → (d' : tr.Db) × (seed_genesis tr c total (v ∷ vs) d ≡ some d')
        × ((u : Validator)
            → Memᴰ u (v ∷ vs)
            → get_account tr d' (address_of c u) ≡ funded (part_of total (length (v ∷ vs))))
        × (seed_genesis tr c total (v ∷ vs) d' ≡ some d')
  seed_genesis_funds total v vs d fits paid unused =
      let (d', e, all) = funded_once total v vs d fits unused in
      (d', e, all, seeded_again total v vs d d' fits paid unused e)
