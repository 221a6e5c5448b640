-- ===== src/Bytes/BigEndian.antt =====
-- Numbers as bytes, the highest byte first.
use bery_bc.Base.{
  ℕ, zero, suc, ◌+◌, ◌*◌, ◌/◌, ◌%◌, ◌^◌, Option, none, some, [], ◌∷◌, ◌++◌, ltb, if◌then◌else◌,
}
use bery_bc.Base.Int.{ℤ, nat_abs}
use bery_bc.Bytes.Hex.{Bytes}

-- The lowest `w` bytes of a number.
unfoldable pub to_be : ℕ → ℕ → Bytes
to_be zero n = []
to_be (suc w) n = to_be w (n / 256) ++ (n % 256) ∷ []

unfoldable pub of_be_from : ℕ → Bytes → ℕ
of_be_from acc [] = acc
of_be_from acc (b ∷ bs) = of_be_from (acc * 256 + b) bs

-- `new BN(buffer)`
unfoldable pub of_be : Bytes → ℕ
unfolding of_be_from
of_be bs = of_be_from 0 bs

-- `writeUInt32BE` and `writeBigUInt64BE` throw out of their range.
unfoldable pub write_be : ℕ → ℕ → Option Bytes
unfolding to_be
write_be w n = if ltb n (256 ^ w) then some (to_be w n) else none

-- `n.toArrayLike(Buffer, 'be', w)` throws if the number is too long, and does not see its sign.
unfoldable pub to_array_like : ℤ → ℕ → Option Bytes
unfolding write_be
to_array_like n w = write_be w (nat_abs n)
