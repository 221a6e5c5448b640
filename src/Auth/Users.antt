-- ===== src/Auth/Users.antt =====
-- The class `UserStore`. The package bcrypt is the record `Passwords`; `toLowerCase` is the argument
-- `lower`. The file holds the users that were saved, which are read as they were written; that a write
-- fails is not modelled.
use bery_bc.Base.{ℕ, ◌≡◌, Bool, true, Option, none, some, List, [], ◌∷◌, map, if◌then◌else◌}
use bery_bc.Base.TextMap.{TextMap, lookup, insert}
use bery_bc.Bytes.{Text}

-- `bcrypt.hash` with the salt it draws, and `bcrypt.compare`.
pub record Passwords : Type 0 where
  pub hash : Text → Text → Text
  pub compare : Text → Text → Bool

-- A password fits its own hash.
pub record IsPasswords (p : Passwords) : Type 0 where
  pub compare-hash : (salt password : Text) → p.compare password (p.hash salt password) ≡ true

pub record User : Type 0 where
  pub id : Text
  pub email : Text
  pub password_hash : Text
  pub created_at : ℕ

pub record UserStore : Type 0 where
  pub users : TextMap User
  pub file : Option (List User)

-- What `create` draws: the clock, the id made of it and of a random text, and the salt.
pub record Draws : Type 0 where
  pub now : ℕ
  pub id : Text
  pub salt : Text

abbrev pub saved_users : TextMap User → List User
saved_users = map λ e. e.1

module _ (lower : Text → Text) where
  -- The loop over the users of the file.
  unfoldable pub set_all : TextMap User → List User → TextMap User
  set_all m [] = m
  set_all m (u ∷ us) = set_all (insert (lower u.email) u m) us

  unfoldable pub load : UserStore → UserStore
  unfolding set_all
  load st = elim st.file [
    | none ↦ record st { users = [] }
    | some us ↦ record st { users = set_all [] us }
  ]

  unfoldable pub save : UserStore → UserStore
  save st = record st { file = some (saved_users st.users) }

  unfoldable pub find_by_email : Text → UserStore → Option User
  find_by_email email st = lookup (lower email) st.users

  module _ (p : Passwords) where
    abbrev pub new_user : Draws → Text → Text → User
    new_user d email password = record {
      id = d.id;
      email = lower email;
      password_hash = p.hash d.salt password;
      created_at = d.now;
    }

    -- `none` where the email is registered.
    unfoldable pub create : Draws → Text → Text → UserStore → Option (User × UserStore)
    unfolding save find_by_email
    create d email password st = elim (find_by_email email st) [
      | some u ↦ none
      | none ↦
          let u = new_user d email password in
          some (u, save (record st { users = insert u.email u st.users }))
    ]

    unfoldable pub verify_password : Text → Text → UserStore → Option User
    unfolding find_by_email
    verify_password email password st = elim (find_by_email email st) [
      | none ↦ none
      | some u ↦ if p.compare password u.password_hash then some u else none
    ]
