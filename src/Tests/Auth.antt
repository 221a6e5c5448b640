-- ===== src/Tests/Auth.antt =====
-- A test of a sign-up and a sign-in.
use bery_bc.Base.{
  ℕ, ◌+◌, ◌≡◌, refl, none, [], ◌∷◌, leb, ◌&&◌, if◌then◌else◌, same, same_refl, arith,
}
use bery_bc.Bytes.{Text}
use bery_bc.Base.TextMap.{lookup}
use bery_bc.Api.Fields.{text}
use bery_bc.Auth.Users.{Passwords, IsPasswords, UserStore, Draws, load, create, find_by_email}
use bery_bc.Auth.Handlers.{Session, signed_in, sign_up, sign_in}
use bery_bc.Auth.UserLaws.{IsUsers}
use bery_bc.Auth.SignIn.{renewed, sign_up-sign_in}

abbrev toy_passwords : Passwords
toy_passwords = record { hash = λ salt w. w; compare = λ w h. same w h }

toy_passwords-IsPasswords : IsPasswords toy_passwords
toy_passwords-IsPasswords = record { compare-hash = λ salt w. same_refl w }

lower_char : ℕ → ℕ
lower_char c = if leb 65 c && leb c 90 then c + 32 else c

lower_char_twice : (c : ℕ) → lower_char (lower_char c) ≡ lower_char c
unfolding lower_char
lower_char_twice c = ground arith

lower : Text → Text
lower [] = []
lower (c ∷ cs) = lower_char c ∷ lower cs

lower_twice : (t : Text) → lower (lower t) ≡ lower t
unfolding lower
lower_twice [] = refl
lower_twice (c ∷ cs) = rw (lower_char_twice c, lower_twice cs) refl

abbrev trim : Text → Text
trim t = t

abbrev token : ℕ → Text → Text → Text
token now id email = now ∷ id

abbrev draws : Draws
draws = record { now = 9000; id = 5 ∷ []; salt = [] }

abbrev empty_store : UserStore
empty_store = record { users = []; file = none }

abbrev password : Text
password = 1 ∷ 2 ∷ 3 ∷ 4 ∷ 5 ∷ 6 ∷ 7 ∷ 8 ∷ []

joined :
    (se : Session) × (st : UserStore) × (sign_up lower trim toy_passwords token 9000 draws
        (text (b'a' ∷ b'@' ∷ []))
        (text password)
        empty_store
      ≡ (signed_in se, st))
unfolding sign_up create find_by_email lookup
joined = (_, _, refl)

no-IsUsers : IsUsers lower []
unfolding IsUsers
no-IsUsers = tt

sign_up-sign_in_example :
    sign_in lower trim toy_passwords token 9500
      (text (b'A' ∷ b'@' ∷ []))
      (text password)
      (load lower joined.1)
    ≡ signed_in (renewed token 9500 joined.0)
unfolding lower lower_char
sign_up-sign_in_example =
    sign_up-sign_in lower trim toy_passwords toy_passwords-IsPasswords token lower_twice empty_store
      9000 draws (b'a' ∷ b'@' ∷ []) password 9500 b'A' (b'@' ∷ []) joined.0 joined.1 no-IsUsers
      joined.2 refl
