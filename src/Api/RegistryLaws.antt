-- ===== src/Api/RegistryLaws.antt =====
-- The registry survives a restart.
use mathlib.Core.List.{append_assoc, append-nil}
use bery_bc.Base.{
  ◌≡◌, refl, sym, ◌∙◌, ap, true, false, none, some, [], ◌∷◌, ◌++◌, length, same, same_iff,
  same_refl, ◌==◌, ◌⊎◌, inl, inr, arith, Bool-cases,
}
use bery_bc.Base.TextMap.{lookup, insert, lookup-insert_ne, lookup-insert_self}
use bery_bc.Base.Throws.{none-ne-some, some-inj}
use bery_bc.Bytes.{Text}
use bery_bc.Storage.Blocks.{strip_0x}
use bery_bc.Storage.Logs.{ox}
use bery_bc.Api.Registry.{
  VerifiedContract, Registry, saved, key_of, load, add_contract, get_contract,
}

module _ (lower : Text → Text) where
  -- Every contract stands under its own address of 40 characters, and no address twice.
  abbrev pub IsRegistry : Registry → Type 0
  IsRegistry [] = Unit {0}
  IsRegistry ((k, c) ∷ m) =
      (key_of lower c.address ≡ k) × ((length k == 40) ≡ true) × (lookup k m ≡ none) × IsRegistry m

  insert_new :
      (k : Text) (c : VerifiedContract) (m : Registry)
      → lookup k m ≡ none
      → insert k c m ≡ m ++ (k, c) ∷ []
  unfolding lookup insert
  insert_new k c [] h = refl
  insert_new k c ((j, d) ∷ m) h = elim (Bool-cases (same k j)) [
    | inl e ↦ absurd (none-ne-some (sym (rw (e) at h)))
    | inr e ↦ rw (e) (ap (λ l. (j, d) ∷ l) (insert_new k c m (rw (e) at h)))
  ]

  insert-IsRegistry :
      (k : Text) (c : VerifiedContract) (m : Registry)
      → key_of lower c.address ≡ k
      → (length k == 40) ≡ true
      → IsRegistry m
      → IsRegistry (insert k c m)
  unfolding insert lookup
  insert-IsRegistry k c [] a l h = (a, l, refl, tt)
  insert-IsRegistry k c ((j, d) ∷ m) a l (b, lj, new, h) = elim (Bool-cases (same k j)) [
    | inl e ↦ rw (e) (a ∙ (same_iff k j).0 e, lj, new, h)
    | inr e ↦
        rw (e)
          (b, lj, lookup-insert_ne j k c m (not_same k j e) ∙ new, insert-IsRegistry k c m a l h)
  ]
    where
      not_same : (x y : Text) → same x y ≡ false → same y x ≡ false
      not_same x y e = ground (arith, same_iff x y, same_iff y x)

  lookup-snoc :
      (k j : Text) (c : VerifiedContract) (m : Registry)
      → same k j ≡ false
      → lookup k m ≡ none
      → lookup k (m ++ (j, c) ∷ []) ≡ none
  unfolding lookup
  lookup-snoc k j c [] e h = rw (e) refl
  lookup-snoc k j c ((i, d) ∷ m) e h = elim (Bool-cases (same k i)) [
    | inl s ↦ absurd (none-ne-some (sym (rw (s) at h)))
    | inr s ↦ rw (s) (lookup-snoc k j c m e (rw (s) at h))
  ]

  abbrev Apart : Registry → Registry → Type 0
  Apart acc m = (k : Text) → (lookup k m ≡ none) ⊎ (lookup k acc ≡ none)

  first-Apart :
      (acc m : Registry) (j : Text) (c : VerifiedContract)
      → Apart acc ((j, c) ∷ m)
      → lookup j acc ≡ none
  unfolding lookup
  first-Apart acc m j c apart = elim (apart j) [
    | inl h ↦ absurd (none-ne-some (sym (rw (same_refl j) at h)))
    | inr h ↦ h
  ]

  rest-Apart :
      (acc m : Registry) (j : Text) (c : VerifiedContract)
      → lookup j m ≡ none
      → Apart acc ((j, c) ∷ m)
      → Apart (acc ++ (j, c) ∷ []) m
  unfolding lookup
  rest-Apart acc m j c new apart k = elim (Bool-cases (same k j)) [
    | inl e ↦ inl (ap (λ x. lookup x m) ((same_iff k j).0 e) ∙ new)
    | inr e ↦ elim (apart k) [ inl h ↦ inl (rw (e) at h) | inr h ↦ inr (lookup-snoc k j c acc e h) ]
  ]

  load_after : (m acc : Registry) → IsRegistry m → Apart acc m → load lower (saved m) acc ≡ acc ++ m
  unfolding load saved
  load_after [] acc h apart = sym (append-nil acc)
  load_after ((k, c) ∷ m) acc (a, l, new, h) apart =
      rw (load, a, l)
        (ap (load lower (saved m)) (insert_new k c acc (first-Apart acc m k c apart))
          ∙ load_after m (acc ++ (k, c) ∷ []) h (rest-Apart acc m k c new apart)
          ∙ append_assoc acc ((k, c) ∷ []) m)

  registry_restart : (m : Registry) → IsRegistry m → load lower (saved m) [] ≡ m
  unfolding lookup
  registry_restart m h = load_after m [] h (λ k. inr refl)

  key_of-ox :
      ((x : Text) → lower (lower x) ≡ lower x)
      → (a : Text) → key_of lower (ox ++ key_of lower a) ≡ key_of lower a
  unfolding key_of strip_0x
  key_of-ox again a = again (strip_0x a)

  -- A contract that is registered with a valid registry leaves a valid one, and is found under its
  -- address afterwards, also when the node has been started again from the file that is written then.
  -- Lower case is lower case again.
  pub add_contract-get :
      (c r : VerifiedContract) (m m' : Registry)
      → ((x : Text) → lower (lower x) ≡ lower x)
      → IsRegistry m
      → add_contract lower c m ≡ some (r, m')
      → IsRegistry m'
        × (load lower (saved m') [] ≡ m')
        × (get_contract lower c.address (load lower (saved m') []) ≡ some r)
  unfolding add_contract get_contract
  add_contract-get c r m m' again h e = elim (Bool-cases (length (key_of lower c.address) == 40)) [
    | inr bad ↦ absurd (none-ne-some (rw (bad) at e))
    | inl good ↦
        let d = record c { address = ox ++ key_of lower c.address } in
        let made : some (d, insert (key_of lower c.address) d m) ≡ some (r, m') = rw (good) at e in
        let valid =
          insert-IsRegistry (key_of lower c.address) d m (key_of-ox again c.address) good h in
        let er : d ≡ r = ap (λ p. p.0) (some-inj made) in
        let em : insert (key_of lower c.address) d m ≡ m' = ap (λ p. p.1) (some-inj made) in
        let kept : IsRegistry m' = rw (← em) valid in
        (
          kept,
          registry_restart m' kept,
          ap (lookup (key_of lower c.address)) (registry_restart m' kept ∙ sym em)
              ∙ lookup-insert_self (key_of lower c.address) d m
              ∙ ap some er,
        )
  ]
