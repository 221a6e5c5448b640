-- ===== src/Mempool/Admission.antt =====
-- What `add` does, on each of its branches.
use bery_bc.Base.{
  ◌≡◌, Bool, true, false, Option, none, some, arith, inl, inr, Bool-cases, ◌⊎◌, ◌≤◌, Option-cases,
  length, same, leb, ◌<◌, if◌then◌else◌,
}
use bery_bc.Base.Int.{ltb_ℤ, ℤ}
use bery_bc.Base.TextMap.{lookup, contains, insert}
use bery_bc.Base.Throws.{◌>>=◌, >>=-eq-some}
use bery_bc.Bytes.{Bytes, Text, to_hex}
use bery_bc.Crypto.{Crypto}
use bery_bc.State.Account.{Account}
use bery_bc.Core.Transaction.{Transaction, system_sender}
use bery_bc.Core.Transaction
use bery_bc.Mempool.Defs.{
  Mempool, max_size, make_room, add, remove, nonce_accepted, get_lowest_fee_transaction,
}

module _ (c : Crypto) where
  -- The transaction passed every test, and was put under its hash into the room made for it.
  pub record Admitted (accounts : Option (Text → Option Account)) (t : Transaction) (m m' : Mempool)
      : Type 0 where
    pub verified : Transaction.verify c t ≡ true
    pub not_system : same t.from system_sender ≡ false
    pub next_nonce : nonce_accepted accounts t ≡ true
    pub hash : Bytes
    pub hash_eq : Transaction.hash c t ≡ some hash
    pub new_hash : lookup (to_hex hash) m ≡ none
    pub room : Mempool
    pub room_eq : make_room c t.gas_price m ≡ some (some room)
    pub inserted : m' ≡ insert (to_hex hash) t room

  after_hash : Bytes → Transaction → Mempool → Option (Bool × Mempool)
  after_hash h t m = if contains (to_hex h) m then some (false, m) else do
    room ← make_room c t.gas_price m
    elim room [ none ↦ some (false, m) | some m' ↦ some (true, insert (to_hex h) t m') ]

  after_hash-cases :
      (h : Bytes) (t : Transaction) (m m' : Mempool) (b : Bool)
      → after_hash h t m ≡ some (b, m')
      → ((b ≡ false) × (m' ≡ m))
        ⊎ ((b ≡ true)
            × (lookup (to_hex h) m ≡ none)
            × ((room : Mempool) × (make_room c t.gas_price m ≡ some (some room))
                × (m' ≡ insert (to_hex h) t room)))
  unfolding after_hash contains
  after_hash-cases h t m m' b e = ground arith

  -- `add` answers false and leaves the pool alone, or answers true and has admitted the
  -- transaction.
  pub add-cases :
      (accounts : Option (Text → Option Account)) (t : Transaction) (m m' : Mempool) (b : Bool)
      → add c accounts t m ≡ some (b, m')
      → ((b ≡ false) × (m' ≡ m)) ⊎ ((b ≡ true) × Admitted accounts t m m')
  unfolding add after_hash
  add-cases accounts t m m' b e = elim (Bool-cases (Transaction.verify c t)) [
    | inr bad ↦ inl (refused (rw bad at e))
    | inl good ↦ elim (Bool-cases (same t.from system_sender)) [
      | inl system ↦ inl (refused (rw (good, system) at e))
      | inr user ↦ elim (Bool-cases (nonce_accepted accounts t)) [
        | inr stale ↦ inl (refused (rw (good, user, stale) at e))
        | inl next ↦
            let (h, hashed, e1) =
              >>=-eq-some (Transaction.hash c t) (λ h. after_hash h t m)
                (rw (good, user, next) at e) in
            elim (after_hash-cases h t m m' b e1) [
              | inl no_change ↦ inl no_change
              | inr (true_answer, fresh, (room, made, put)) ↦ inr (
                true_answer,
                record {
                  verified = good;
                  not_system = user;
                  next_nonce = next;
                  hash = h;
                  hash_eq = hashed;
                  new_hash = fresh;
                  room = room;
                  room_eq = made;
                  inserted = put;
                },
              )
            ]
      ]
    ]
  ]
    where
      refused :
          ◌≡◌ {A = Option (Bool × Mempool)} (some (false, m)) (some (b, m'))
          → (b ≡ false) × (m' ≡ m)
      refused e = ground arith

  -- Room is made by leaving the pool alone if it is not full, and otherwise by dropping its cheapest
  -- transaction, which is strictly cheaper than the new one.
  pub make_room-cases :
      (price : ℤ) (m room : Mempool)
      → make_room c price m ≡ some (some room)
      → ((length m < max_size) × (room ≡ m))
        ⊎ ((max_size ≤ length m)
            × ((l : Transaction) × (h : Bytes) × (get_lowest_fee_transaction m ≡ some l)
                × (ltb_ℤ l.gas_price price ≡ true)
                × (Transaction.hash c l ≡ some h)
                × (room ≡ remove (to_hex h) m)))
  unfolding make_room
  make_room-cases price m room e = elim (Bool-cases (leb max_size (length m))) [
    | inr free ↦ inl (ground arith, ground arith)
    | inl full ↦ elim (Option-cases (get_lowest_fee_transaction m)) [
      | inl nothing ↦ absurd (ground arith)
      | inr (l, found) ↦ elim (Bool-cases (ltb_ℤ l.gas_price price)) [
        | inr no_gain ↦ absurd (ground arith)
        | inl gain ↦
            let (h, hashed, e1) =
              >>=-eq-some (Transaction.hash c l) (λ h. some (some (remove (to_hex h) m)))
                (rw (full, found, gain, make_room) at e) in
            inr (ground arith, (l, h, found, gain, hashed, ground arith))
      ]
    ]
  ]
