-- ===== src/Mempool/Invariant.antt =====
-- What holds of the pool after every operation.
use mathlib.Core.Bool.{false≢true}
use bery_bc.Base.Int.{ltb_ℤ}
use bery_bc.Base.{
  ap, ◌≡◌, refl, sym, ◌∙◌, Bool, true, false, Option, none, some, List, [], ◌∷◌, arith, inl, inr,
  Bool-cases, ◌≤◌, ◌+◌, length, same, same_iff, same_refl,
}
use bery_bc.Base.TextMap.{
  lookup, insert, erase, lookup-insert, lookup-insert_self, length-insert_new, length-erase,
  lookup-erase_ne, lookup-erase_absent,
}
use bery_bc.Base.Throws.{some-inj}
use bery_bc.Bytes.{Bytes, Text, to_hex}
use bery_bc.Crypto.{Crypto}
use bery_bc.State.Account.{Account}
use bery_bc.Core.Transaction.{Transaction, system_sender}
use bery_bc.Core.Transaction
use bery_bc.Mempool.Defs.{Mempool, max_size, make_room, add, remove, values}
use bery_bc.Mempool.Fees.{AllFrom, IsLowest, lowest_fee-source, least_fee-IsLowest}
use bery_bc.Mempool.Admission.{add-cases, make_room-cases}

module _ (c : Crypto) where
  -- An entry is a verified transaction of a user, under its hash.
  pub record IsEntry (k : Text) (t : Transaction) : Type 0 where
    pub verified : Transaction.verify c t ≡ true
    pub not_system : same t.from system_sender ≡ false
    pub hash : Bytes
    pub hash_eq : Transaction.hash c t ≡ some hash
    pub key_eq : k ≡ to_hex hash

  -- Every entry is one, and no key is listed twice.
  abbrev pub AllEntries : Mempool → Type 0
  AllEntries [] = Unit {0}
  AllEntries ((k, t) ∷ m) = IsEntry k t × (lookup k m ≡ none) × AllEntries m

  pub record IsValid (m : Mempool) : Type 0 where
    pub bounded : length m ≤ max_size
    pub entries : AllEntries m

  insert-AllEntries :
      (k : Text) (t : Transaction) (m : Mempool)
      → IsEntry k t
      → lookup k m ≡ none
      → AllEntries m
      → AllEntries (insert k t m)
  unfolding insert lookup
  insert-AllEntries k t [] p h v = (p, refl, tt)
  insert-AllEntries k t ((j, u) ∷ m) p h v = elim (Bool-cases (same k j)) [
    | inl equal ↦ absurd (ground arith)
    | inr other ↦ rw other (
      v.0,
      lookup-insert j k t m ∙ ground (arith, same_iff j k, same_iff k j),
      insert-AllEntries k t m p (rw other at h) v.2,
    )
  ]

  erase-AllEntries : (k : Text) (m : Mempool) → AllEntries m → AllEntries (erase k m)
  unfolding erase
  erase-AllEntries k [] v = tt
  erase-AllEntries k ((j, u) ∷ m) v = elim (Bool-cases (same k j)) [
    | inl equal ↦ rw equal v.2
    | inr other ↦ rw other (
      v.0,
      ground (arith, same_iff j k, same_iff k j, lookup-erase_ne j k m),
      erase-AllEntries k m v.2,
    )
  ]

  -- The pool finds the transaction under its hash.
  abbrev IsStored : Mempool → Transaction → Type 0
  IsStored m t = (h : Bytes) × (Transaction.hash c t ≡ some h) × (lookup (to_hex h) m ≡ some t)

  IsStored-cons :
      (k : Text) (u t : Transaction) (m : Mempool)
      → lookup k m ≡ none
      → IsStored m t
      → IsStored ((k, u) ∷ m) t
  unfolding lookup
  IsStored-cons k u t m fresh (h, hashed, found) =
      (h, hashed, ground (arith, same_iff (to_hex h) k))

  AllFrom-IsStored-cons :
      (k : Text) (u : Transaction) (m : Mempool) (ts : List Transaction)
      → lookup k m ≡ none
      → AllFrom (IsStored m) ts
      → AllFrom (IsStored ((k, u) ∷ m)) ts
  AllFrom-IsStored-cons k u m [] fresh all = tt
  AllFrom-IsStored-cons k u m (t ∷ ts) fresh (p, ps) =
      (IsStored-cons k u t m fresh p, AllFrom-IsStored-cons k u m ts fresh ps)

  pub all-IsStored : (m : Mempool) → AllEntries m → AllFrom (IsStored m) (values m)
  unfolding lookup
  all-IsStored [] v = tt
  all-IsStored ((k, t) ∷ m) v = (
    (v.0.hash, v.0.hash_eq, ground (arith, same_iff v.0.hash k, same_refl k)),
    AllFrom-IsStored-cons k t m (values m) v.1 (all-IsStored m v.2),
  )

  -- The room made for a transaction is valid, and there is a place left in it.
  make_room-IsValid :
      (t : Transaction) (m room : Mempool)
      → IsValid m
      → make_room c t.gas_price m ≡ some (some room)
      → AllEntries room × (length room + 1 ≤ max_size)
  unfolding remove
  make_room-IsValid t m room v e = elim (make_room-cases c t.gas_price m room e) [
    | inl (free, same_pool) ↦ rw same_pool (v.entries, omega arith)
    | inr (full, (l, h, found, _, hashed, dropped)) ↦
        let (h', hashed', stored) =
          lowest_fee-source (IsStored m) m l (all-IsStored m v.entries) found in
        let agree : h' ≡ h = some-inj (sym hashed' ∙ hashed) in
        rw dropped (
          erase-AllEntries (to_hex h) m v.entries,
          omega (arith, v.bounded, length-erase (to_hex h) l m (rw agree at stored)),
        )
  ]

  make_room-fresh :
      (k : Text) (t : Transaction) (m room : Mempool)
      → make_room c t.gas_price m ≡ some (some room)
      → lookup k m ≡ none
      → lookup k room ≡ none
  unfolding remove
  make_room-fresh k t m room e fresh = elim (make_room-cases c t.gas_price m room e) [
    | inl (_, same_pool) ↦ rw same_pool fresh
    | inr (_, (l, h, _, _, _, dropped)) ↦ rw dropped (lookup-erase_absent k (to_hex h) m fresh)
  ]

  -- `add` keeps the pool valid, on every branch: at most 5000 transactions, each a verified
  -- transaction of a user under its own hash, and no hash twice.
  pub add-IsValid :
      (accounts : Option (Text → Option Account)) (t : Transaction) (m m' : Mempool) (b : Bool)
      → IsValid m
      → add c accounts t m ≡ some (b, m')
      → IsValid m'
  add-IsValid accounts t m m' b v e = elim (add-cases c accounts t m m' b e) [
    | inl (_, same_pool) ↦ rw same_pool v
    | inr (_, a) ↦
        let (kept, free) = make_room-IsValid t m a.room v a.room_eq in
        let fresh = make_room-fresh (to_hex a.hash) t m a.room a.room_eq a.new_hash in
        rw a.inserted (record {
          bounded = omega (arith, length-insert_new (to_hex a.hash) t a.room fresh);
          entries =
              insert-AllEntries (to_hex a.hash) t a.room
                (record {
                  verified = a.verified;
                  not_system = a.not_system;
                  hash = a.hash;
                  hash_eq = a.hash_eq;
                  key_eq = refl;
                })
                fresh kept;
        })
  ]

  -- A pool of 5000 takes a new transaction only in the place of its cheapest one, which is strictly
  -- cheaper than the new one, and the pool afterwards finds the new one under its hash.
  pub add_replaces_cheapest :
      (accounts : Option (Text → Option Account)) (t : Transaction) (m m' : Mempool)
      → IsValid m
      → length m ≡ max_size
      → add c accounts t m ≡ some (true, m')
      → (l : Transaction) × (h k : Bytes) × (lookup (to_hex h) m ≡ some l)
        × IsLowest l (values m)
        × (ltb_ℤ l.gas_price t.gas_price ≡ true)
        × (Transaction.hash c t ≡ some k)
        × (m' ≡ insert (to_hex k) t (erase (to_hex h) m))
        × (lookup (to_hex k) m' ≡ some t)
  unfolding remove
  add_replaces_cheapest accounts t m m' v full e = elim (add-cases c accounts t m m' true e) [
    | inl (refused, _) ↦ absurd (false≢true (sym refused))
    | inr (_, a) ↦ elim (make_room-cases c t.gas_price m a.room a.room_eq) [
      | inl (free, _) ↦ absurd (omega arith)
      | inr (_, (l, h, found, gain, hashed, dropped)) ↦
          let (h', hashed', stored) =
            lowest_fee-source (IsStored m) m l (all-IsStored m v.entries) found in
          let agree : h' ≡ h = some-inj (sym hashed' ∙ hashed) in
          (
            l,
            h,
            a.hash,
            rw agree at stored,
            least_fee-IsLowest m l found,
            gain,
            a.hash_eq,
            a.inserted ∙ ap (insert (to_hex a.hash) t) dropped,
            rw a.inserted (lookup-insert_self (to_hex a.hash) t a.room),
          )
    ]
  ]
