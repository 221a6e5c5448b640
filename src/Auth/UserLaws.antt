-- ===== src/Auth/UserLaws.antt =====
-- A store of users, its file, and the store that is loaded from it.
use bery_bc.Base.{
  ◌⊎◌, ◌≡◌, refl, ◌∙◌, ap, inl, inr, true, false, Option, none, some, [], ◌∷◌, same, same-eq,
  same_iff, Bool-cases, if◌then◌else◌, arith,
}
use bery_bc.Base.TextMap.{TextMap, lookup, insert, lookup-insert}
use bery_bc.Bytes.{Text}
use bery_bc.Auth.Users.{User, saved_users, set_all}

module _ (lower : Text → Text) where
  -- Every user is under its email in lower case, and under no other key.
  unfoldable pub IsUsers : TextMap User → Type 0
  IsUsers [] = Unit {0}
  IsUsers ((k, u) ∷ m) = (lower u.email ≡ k) × (lookup k m ≡ none) × IsUsers m

  abbrev pub or_in : Option User → Option User → Option User
  or_in none o = o
  or_in (some u) o = some u

  pub lookup-set_all :
      (j : Text) (m acc : TextMap User)
      → IsUsers m
      → lookup j (set_all lower acc (saved_users m)) ≡ or_in (lookup j m) (lookup j acc)
  unfolding IsUsers set_all lookup
  lookup-set_all j [] acc h = refl
  lookup-set_all j ((k, u) ∷ m) acc (key, fresh, h) =
      lookup-set_all j m (insert (lower u.email) u acc) h
      ∙ ap (or_in (lookup j m)) (lookup-insert j (lower u.email) u acc)
      ∙ ap (λ x. or_in (lookup j m) (if same j x then some u else lookup j acc)) key
      ∙ by_key (Bool-cases (same j k))
    where
      by_key :
          ((same j k ≡ true) ⊎ (same j k ≡ false))
          → or_in (lookup j m) (if same j k then some u else lookup j acc)
            ≡ or_in (if same j k then some u else lookup j m) (lookup j acc)
      by_key (inl e) =
          let g : lookup j m ≡ none = ap (λ x. lookup x m) (same-eq j k e) ∙ fresh in rw (e, g) refl
      by_key (inr e) = rw (e) refl

  pub insert-IsUsers :
      (k : Text) (u : User) (m : TextMap User)
      → lower u.email ≡ k
      → lookup k m ≡ none
      → IsUsers m
      → IsUsers (insert k u m)
  unfolding IsUsers insert lookup
  insert-IsUsers k u [] key fresh h = (key, refl, tt)
  insert-IsUsers k u ((j, w) ∷ m) key fresh (key_w, fresh_w, h) = elim (Bool-cases (same k j)) [
    | inl e ↦ no_user (rw (e) at fresh)
    | inr e ↦ rw (e) (
      key_w,
      lookup-insert j k u m ∙ rw (other k j e) fresh_w,
      insert-IsUsers k u m key (rw (e) at fresh) h,
    )
  ]
    where
      no_user : {P : Type 0} {w : User} → some w ≡ none → P
      no_user x = cc

      other : (a b : Text) → same a b ≡ false → same b a ≡ false
      other a b x = ground (arith, same_iff a b, same_iff b a)
