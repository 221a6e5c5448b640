-- ===== src/Auth/SignIn.antt =====
-- A user that has signed up, and a restart.
use bery_bc.Base.{ℕ, ◌≡◌, refl, sym, ◌∙◌, ap, none, some, [], ◌∷◌, length, ltb}
use bery_bc.Base.TextMap.{lookup, insert, lookup-insert_self}
use bery_bc.Base.Throws.{by_test, by_option}
use bery_bc.Bytes.{Text}
use bery_bc.Api.Fields.{text}
use bery_bc.Api.Submit.{truthy}
use bery_bc.Auth.Users.{
  Passwords, IsPasswords, User, UserStore, Draws, saved_users, set_all, load, save, find_by_email,
  create, new_user, verify_password,
}
use bery_bc.Auth.Handlers.{
  Session, AuthReply, signed_in, AuthError, registered, credentials_required, short_password,
  rejected, session, signed_up, sign_up, sign_in,
}
use bery_bc.Auth.UserLaws.{IsUsers, or_in, lookup-set_all, insert-IsUsers}

-- A session of another time for the same user.
abbrev pub renewed : (ℕ → Text → Text → Text) → ℕ → Session → Session
renewed sign_token later se = record se { token = sign_token later se.id se.email }

module _ (lower trim : Text → Text) (p : Passwords) (law : IsPasswords p)
    (sign_token : ℕ → Text → Text → Text)
    (lower_lower : (t : Text) → lower (lower t) ≡ lower t) where
  -- The user is found in the store that is loaded from the file.
  remembered :
      (st : UserStore) (d : Draws) (email again password : Text)
      → IsUsers lower st.users
      → lookup (lower email) st.users ≡ none
      → lower again ≡ lower email
      → verify_password lower p again password (
          load lower (
            save lower (record st {
              users = insert (lower email) (new_user lower p d email password) st.users;
            })))
        ≡ some (new_user lower p d email password)
  unfolding verify_password find_by_email load save
  remembered st d email again password h fresh same_email =
      let u = new_user lower p d email password in
      let users = insert (lower email) u st.users in
      let valid = insert-IsUsers lower (lower email) u st.users (lower_lower email) fresh h in
      let found : lookup (lower again) (set_all lower [] (saved_users users)) ≡ some u =
        ap (λ k. lookup k (set_all lower [] (saved_users users))) same_email
        ∙ lookup-set_all lower (lower email) users [] valid
        ∙ ap (λ o. or_in lower o (lookup (lower email) []))
            (lookup-insert_self (lower email) u st.users) in
      rw (found, verify_password) (rw (law.compare-hash d.salt password) refl)

  welcomed :
      (later a : ℕ) (rest : Text) (b : ℕ) (password : Text) (st : UserStore) (u : User)
      → verify_password lower p (trim (a ∷ rest)) (b ∷ password) st ≡ some u
      → sign_in lower trim p sign_token later (text (a ∷ rest)) (text (b ∷ password)) st
        ≡ signed_in (session lower trim p sign_token later u)
  unfolding sign_in truthy
  welcomed later a rest b password st u h = rw (h) refl

  -- What a sign-up with these texts promises.
  abbrev Lasting : UserStore → Text → Text → ℕ → ℕ → Text → AuthReply × UserStore → Type 0
  Lasting st email password later a rest q =
      (se : Session) (st' : UserStore)
      → q ≡ (signed_in se, st')
      → lower (trim (a ∷ rest)) ≡ lower (trim email)
      → sign_in lower trim p sign_token later (text (a ∷ rest)) (text password) (load lower st')
        ≡ signed_in (renewed sign_token later se)

  refused :
      (st k : UserStore) (email password : Text) (later a : ℕ) (rest : Text) (e : AuthError)
      → Lasting st email password later a rest (rejected e, k)
  refused st k email password later a rest e se st' h g = cc

  same_session :
      {x se : Session} {s st' : UserStore}
      → ◌≡◌ {A = AuthReply × UserStore} (signed_in x, s) (signed_in se, st')
      → (x ≡ se) × (s ≡ st')
  same_session h = (cc, cc)

  created :
      (st : UserStore) (now : ℕ) (d : Draws) (email : Text) (b : ℕ) (password : Text) (later a : ℕ)
      (rest : Text)
      → IsUsers lower st.users
      → Lasting st email (b ∷ password) later a rest (
          signed_up lower trim p sign_token now st
            (create lower p d (trim email) (b ∷ password) st))
  unfolding create find_by_email
  created st now d email b password later a rest valid =
      by_option
        (λ o.
          Lasting st email (b ∷ password) later a rest (signed_up lower trim p sign_token now st o))
        (find_by_email lower (trim email) st)
        (λ fresh se st' h g.
          let (se_eq, st_eq) = same_session h in
          rw (sym se_eq, sym st_eq)
            (welcomed later a rest b password _ _
              (remembered st d (trim email) (trim (a ∷ rest)) (b ∷ password) valid fresh g)))
        (λ u taken. refused st st email (b ∷ password) later a rest registered)

  -- If a sign-up in a store of users is answered with a session, then after a restart from the saved
  -- file a sign-in with the same password, and an email that is the same once it is trimmed and in lower
  -- case, is answered with a session of the same user.
  pub sign_up-sign_in :
      (st : UserStore) (now : ℕ) (d : Draws) (email password : Text) (later a : ℕ) (rest : Text)
      (se : Session) (st' : UserStore)
      → IsUsers lower st.users
      → sign_up lower trim p sign_token now d (text email) (text password) st ≡ (signed_in se, st')
      → lower (trim (a ∷ rest)) ≡ lower (trim email)
      → sign_in lower trim p sign_token later (text (a ∷ rest)) (text password) (load lower st')
        ≡ signed_in (renewed sign_token later se)
  unfolding sign_up
  sign_up-sign_in st now d [] password later a rest se st' valid =
      refused st st [] password later a rest credentials_required se st'
  sign_up-sign_in st now d (x ∷ xs) [] later a rest se st' valid =
      refused st st (x ∷ xs) [] later a rest credentials_required se st'
  sign_up-sign_in st now d (x ∷ xs) (b ∷ password) later a rest se st' valid =
      by_test (Lasting st (x ∷ xs) (b ∷ password) later a rest) (ltb (length (b ∷ password)) 8)
        (λ short. refused st st (x ∷ xs) (b ∷ password) later a rest short_password)
        (λ long. created st now d (x ∷ xs) b password later a rest valid) se st'
