-- ===== src/Mempool/Copies.antt =====
-- The hash of a transaction is not under its signature: the field `ethHash` replaces it.
use bery_bc.Base.{ℕ, ◌≡◌, refl, true, false, Option, none, some, length, ◌<◌, leb, arith, inl, inr}
use bery_bc.Base.TextMap.{TextMap, lookup, contains, insert}
use bery_bc.Bytes.{Bytes, Text, to_hex}
use bery_bc.Core.Transaction.{Transaction, get_bytes, verify, hash}
use bery_bc.Crypto.{Crypto}
use bery_bc.State.Account.{Account}
use bery_bc.Mempool.Defs.{Mempool, max_size, make_room, add, nonce_accepted}
use bery_bc.Mempool.Admission.{add-cases}

-- A transaction under another hash.
abbrev pub copy_under : Bytes → Transaction → Transaction
copy_under h t = record t { eth_hash = some h }

below_max : (n : ℕ) → n < max_size → leb max_size n ≡ false
below_max n h = ground arith

contains_not : {A : Type 0} (k : Text) (m : TextMap A) → lookup k m ≡ none → contains k m ≡ false
unfolding contains
contains_not k m e = rw (contains, e) refl

module _ (c : Crypto) (accounts : Option (Text → Option Account)) where
  verify-copy_under : (h : Bytes) (t : Transaction) → verify c (copy_under h t) ≡ verify c t
  unfolding verify get_bytes
  verify-copy_under h t = refl

  hash-copy_under : (h : Bytes) (t : Transaction) → hash c (copy_under h t) ≡ some h
  unfolding hash
  hash-copy_under h t = refl

  nonce_accepted-copy_under :
      (h : Bytes) (t : Transaction)
      → nonce_accepted accounts (copy_under h t) ≡ nonce_accepted accounts t
  unfolding nonce_accepted
  nonce_accepted-copy_under h t = by_accounts accounts
    where
      by_accounts :
          (o : Option (Text → Option Account))
          → nonce_accepted o (copy_under h t) ≡ nonce_accepted o t
      by_accounts none = refl
      by_accounts (some f) = refl

  make_room_free :
      (m : Mempool) (t : Transaction)
      → length m < max_size
      → make_room c t.gas_price m ≡ some (some m)
  unfolding make_room
  make_room_free m t free = rw (below_max (length m) free) refl

  -- A pool that has just taken a transaction, and is not full, takes it again under any hash that it does
  -- not hold: the copy needs no key, for the signature that it carries is the one of the original.
  pub add-copy_under :
      (t : Transaction) (h : Bytes) (m m' : Mempool)
      → add c accounts t m ≡ some (true, m')
      → lookup (to_hex h) m' ≡ none
      → length m' < max_size
      → add c accounts (copy_under h t) m' ≡ some (true, insert (to_hex h) (copy_under h t) m')
  unfolding add
  add-copy_under t h m m' e fresh free = elim (add-cases c accounts t m m' true e) [
    | inl (wrong, _) ↦ absurd (ground arith)
    | inr (_, a) ↦
        rw
          (
            verify-copy_under h t,
            a.verified,
            a.not_system,
            nonce_accepted-copy_under h t,
            a.next_nonce,
            hash-copy_under h t,
            contains_not (to_hex h) m' fresh,
            make_room_free m' t free,
          )
          refl
  ]
