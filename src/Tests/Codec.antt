-- ===== src/Tests/Codec.antt =====
-- Encodings as lists of numbers, with which the JSON forms of the block store can be instantiated.
use bery_bc.Base.{length, zero, suc, ℕ, ◌≡◌, refl, ap, Option, none, some, List, [], ◌∷◌}
use bery_bc.Base.Throws.{◌>>=◌}

-- Writing in front of a rest, and reading with the rest.
pub record Codec (A : Type 0) : Type 0 where
  pub write : A → List ℕ → List ℕ
  pub read : List ℕ → Option (A × List ℕ)
  pub read-write : (a : A) (rest : List ℕ) → read (write a rest) ≡ some (a, rest)

pub number : Codec ℕ
number = record { write = λ n rest. n ∷ rest; read = first; read-write = λ n rest. refl }
  where
    first : List ℕ → Option (ℕ × List ℕ)
    first [] = none
    first (n ∷ rest) = some (n, rest)

module _ {A B : Type 0} where
  read_pair : Codec A → Codec B → List ℕ → Option ((A × B) × List ℕ)
  read_pair c d bytes = c.read bytes >>= λ r. d.read r.1 >>= λ q. some ((r.0, q.0), q.1)

  pub pair : Codec A → Codec B → Codec (A × B)
  unfolding read_pair
  pair c d = record {
    write = λ p rest. c.write p.0 (d.write p.1 rest);
    read = read_pair c d;
    read-write = λ p rest.
        rw (c.read-write p.0 (d.write p.1 rest), read_pair) (rw (d.read-write p.1 rest) refl);
  }

  -- A type that is a part of one with a codec.
  read_part : (B → A) → Codec B → List ℕ → Option (A × List ℕ)
  read_part of c bytes = c.read bytes >>= λ r. some (of r.0, r.1)

  pub part : (to : A → B) (of : B → A) → ((a : A) → of (to a) ≡ a) → Codec B → Codec A
  unfolding read_part
  part to of law c = record {
    write = λ a rest. c.write (to a) rest;
    read = read_part of c;
    read-write =
        λ a rest. rw (c.read-write (to a) rest, read_part) (ap (λ x. some (x, rest)) (law a));
  }

module _ {A : Type 0} where
  write_option : Codec A → Option A → List ℕ → List ℕ
  write_option c none rest = 0 ∷ rest
  write_option c (some a) rest = 1 ∷ c.write a rest

  read_option : Codec A → List ℕ → Option (Option A × List ℕ)
  read_option c [] = none
  read_option c (zero ∷ rest) = some (none, rest)
  read_option c (suc n ∷ rest) = c.read rest >>= λ r. some (some r.0, r.1)

  read-write_option :
      (c : Codec A) (o : Option A) (rest : List ℕ)
      → read_option c (write_option c o rest) ≡ some (o, rest)
  unfolding read_option write_option
  read-write_option c none rest = refl
  read-write_option c (some a) rest = rw (c.read-write a rest, read_option) refl

  pub option : Codec A → Codec (Option A)
  option c = record {
    write = write_option c;
    read = read_option c;
    read-write = read-write_option c;
  }

  write_each : Codec A → List A → List ℕ → List ℕ
  write_each c [] rest = rest
  write_each c (a ∷ l) rest = c.write a (write_each c l rest)

  read_each : Codec A → ℕ → List ℕ → Option (List A × List ℕ)
  read_each c zero rest = some ([], rest)
  read_each c (suc n) rest = c.read rest >>= λ r. read_each c n r.1 >>= λ q. some (r.0 ∷ q.0, q.1)

  read-write_each :
      (c : Codec A) (l : List A) (rest : List ℕ)
      → read_each c (length l) (write_each c l rest) ≡ some (l, rest)
  unfolding read_each write_each
  read-write_each c [] rest = refl
  read-write_each c (a ∷ l) rest =
      rw (c.read-write a (write_each c l rest), read_each) (rw (read-write_each c l rest) refl)

  read_list : Codec A → List ℕ → Option (List A × List ℕ)
  read_list c [] = none
  read_list c (n ∷ rest) = read_each c n rest

  pub list : Codec A → Codec (List A)
  unfolding read_list
  list c = record {
    write = λ l rest. length l ∷ write_each c l rest;
    read = read_list c;
    read-write = λ l rest. read-write_each c l rest;
  }

  -- The bytes of one value, and the value of bytes.
  pub encode : Codec A → A → List ℕ
  encode c a = c.write a []

  pub decode : Codec A → List ℕ → Option A
  decode c bytes = c.read bytes >>= λ r. some r.0

  pub decode-encode : (c : Codec A) (a : A) → decode c (encode c a) ≡ some a
  unfolding decode encode
  decode-encode c a = rw (c.read-write a [], decode) refl
