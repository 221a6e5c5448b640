-- ===== src/Bytes/BigEndianLaws.antt =====
-- Fixed-width numbers read back.
use native.Mathlib.Nat.{pow-suc}
use bery_bc.Base.{
  ℕ, zero, suc, ◌+◌, ◌*◌, ◌/◌, ◌%◌, ◌^◌, ◌<◌, ◌≡◌, refl, some, [], ◌∷◌, ◌++◌, arith, length,
  length-append,
}
use bery_bc.Base.Int.{pos}
use bery_bc.Bytes.BigEndian.{to_be, of_be, of_be_from, write_be, to_array_like}
use bery_bc.Bytes.Hex.{Bytes}

pub length-to_be : (w n : ℕ) → length (to_be w n) ≡ w
unfolding to_be
length-to_be zero n = refl
length-to_be (suc w) n =
    omega (arith, length-append (to_be w (n / 256)) ((n % 256) ∷ []), length-to_be w (n / 256))

of_be_from-append :
    (acc : ℕ) (xs : Bytes) (b : ℕ) → of_be_from acc (xs ++ b ∷ []) ≡ of_be_from acc xs * 256 + b
unfolding of_be_from
of_be_from-append acc [] b = refl
of_be_from-append acc (x ∷ xs) b = of_be_from-append (acc * 256 + x) xs b

-- What a fixed width holds is read back.
pub of_be-to_be : (w n : ℕ) → n < 256 ^ w → of_be (to_be w n) ≡ n
unfolding of_be to_be
of_be-to_be zero n h = omega arith
of_be-to_be (suc w) n h =
    let ih = of_be-to_be w (n / 256) (omega (arith, pow-suc 256 w)) in
    rw (of_be_from-append 0 (to_be w (n / 256)) (n % 256)) (omega (arith, ih))

pub write_be-eq : (w n : ℕ) → n < 256 ^ w → write_be w n ≡ some (to_be w n)
unfolding write_be
write_be-eq w n h = ground arith

pub to_array_like-eq : (w n : ℕ) → n < 256 ^ w → to_array_like (pos n) w ≡ some (to_be w n)
unfolding to_array_like
to_array_like-eq w n h = ground arith
