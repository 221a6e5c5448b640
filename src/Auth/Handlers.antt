-- ===== src/Auth/Handlers.antt =====
-- `POST /auth/signup` and `POST /auth/signin`. `trim` is an argument, and so is the token for the id and
-- the email of a user at a time.
use bery_bc.Base.{ℕ, Option, none, some, length, ltb, if◌then◌else◌}
use bery_bc.Bytes.{Text}
use bery_bc.Api.Fields.{Field, given}
use bery_bc.Api.Submit.{truthy}
use bery_bc.Auth.Users.{Passwords, User, UserStore, Draws, create, verify_password, find_by_email}

pub data AuthError : Type 0 where
  credentials_required short_password registered wrong_credentials sign_in_failed : AuthError

-- The token, the id and the email.
pub record Session : Type 0 where
  pub token : Text
  pub id : Text
  pub email : Text

pub data AuthReply : Type 0 where
  signed_in : Session → AuthReply
  rejected : AuthError → AuthReply

module _ (lower trim : Text → Text) (p : Passwords) (sign_token : ℕ → Text → Text → Text) where
  abbrev pub session : ℕ → User → Session
  session now u = record { token = sign_token now u.id u.email; id = u.id; email = u.email }

  abbrev pub signed_up : ℕ → UserStore → Option (User × UserStore) → AuthReply × UserStore
  signed_up now st none = (rejected registered, st)
  signed_up now st (some (u, st')) = (signed_in (session now u), st')

  unfoldable pub sign_up : ℕ → Draws → Field → Field → UserStore → AuthReply × UserStore
  sign_up now d email password st = elim (given email) [
    | none ↦ (rejected credentials_required, st)
    | some e ↦ elim (given password) [
      | none ↦ (rejected credentials_required, st)
      | some w ↦
          if ltb (length w) 8
          then (rejected short_password, st)
          else signed_up now st (create lower p d (trim e) w st)
    ]
  ]

  abbrev welcome : ℕ → Option User → AuthReply
  welcome now none = rejected wrong_credentials
  welcome now (some u) = signed_in (session now u)

  -- A password that is no text makes bcrypt throw, if there is the user.
  abbrev odd_password : Option User → AuthReply
  odd_password none = rejected wrong_credentials
  odd_password (some u) = rejected sign_in_failed

  -- An email that is no text has no `trim`.
  unfoldable pub sign_in : ℕ → Field → Field → UserStore → AuthReply
  unfolding truthy
  sign_in now email password st =
      if truthy email
      then if truthy password
        then elim (given email) [
          | none ↦ rejected sign_in_failed
          | some e ↦ elim (given password) [
            | none ↦ odd_password (find_by_email lower (trim e) st)
            | some w ↦ welcome now (verify_password lower p (trim e) w st)
          ]
        ]
        else rejected credentials_required
      else rejected credentials_required
