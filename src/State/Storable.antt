-- ===== src/State/Storable.antt =====
-- What is read from the state can be written to it.
use native.Mathlib.Nat.{pow-suc, mul_comm, mul_assoc, mul-le-mul_right}
use bery_bc.Base.{
  ℕ, zero, suc, ◌+◌, ◌*◌, ◌^◌, ◌<◌, ◌≤◌, ◌≡◌, refl, sym, ◌∙◌, ap, false, [], ◌∷◌, length, take,
  drop, ltb, length-take, length-drop, arith,
}
use bery_bc.Base.Throws.{by_test}
use bery_bc.Bytes.{Bytes, of_be, of_be_from}
use bery_bc.Bytes.HexLaws.{IsBytes}
use bery_bc.State.Account.{IsStorable, empty_account, deserialize}

below_power : (acc : ℕ) (bs : Bytes) → IsBytes bs → of_be_from acc bs < (acc + 1) * 256 ^ length bs
unfolding of_be_from
below_power acc [] h = omega arith
below_power acc (b ∷ bs) (small, hs) =
    let step : (acc * 256 + b + 1) * 256 ^ length bs ≤ (acc + 1) * 256 * 256 ^ length bs =
      mul-le-mul_right (256 ^ length bs) (omega (arith, small)) in
    let grown : (acc + 1) * 256 ^ suc (length bs) ≡ (acc + 1) * 256 * 256 ^ length bs =
      ap (λ p. (acc + 1) * p) (pow-suc 256 (length bs) ∙ mul_comm (256 ^ length bs) 256)
      ∙ sym (mul_assoc (acc + 1) 256 (256 ^ length bs)) in
    omega (arith, below_power (acc * 256 + b) bs hs, step, grown)

of_be-below : (w : ℕ) (bs : Bytes) → IsBytes bs → length bs ≡ w → of_be bs < 256 ^ w
unfolding of_be
of_be-below w bs h e = rw (← e) (omega (arith, below_power 0 bs h))

IsBytes-take : (n : ℕ) (bs : Bytes) → IsBytes bs → IsBytes (take n bs)
IsBytes-take zero bs h = tt
IsBytes-take (suc n) [] h = tt
IsBytes-take (suc n) (b ∷ bs) (small, hs) = (small, IsBytes-take n bs hs)

IsBytes-drop : (n : ℕ) (bs : Bytes) → IsBytes bs → IsBytes (drop n bs)
IsBytes-drop zero bs h = h
IsBytes-drop (suc n) [] h = tt
IsBytes-drop (suc n) (b ∷ bs) (small, hs) = IsBytes-drop n bs hs

-- The length of a field of 32 bytes.
field_length :
    (from : ℕ) (buf : Bytes) → from + 32 ≤ length buf → length (take 32 (drop from buf)) ≡ 32
field_length from buf h = omega (arith, length-take 32 (drop from buf), length-drop from buf, h)

long_enough : (buf : Bytes) → ltb (length buf) 128 ≡ false → 128 ≤ length buf
long_enough buf e = ground arith

pub empty-IsStorable : IsStorable empty_account
empty-IsStorable = record {
  nonce_value = 0;
  nonce_nat = refl;
  nonce_fits = omega arith;
  balance_value = 0;
  balance_nat = refl;
  balance_fits = omega arith;
  root_length = refl;
  code_length = refl;
}

-- Whatever bytes the state holds for an account, an account that is read is one that can be written:
-- its nonce and its balance are natural numbers of 32 bytes, and its hashes have 32 bytes each.
pub deserialize-IsStorable : (buf : Bytes) → IsBytes buf → IsStorable (deserialize buf)
unfolding deserialize
deserialize-IsStorable buf h =
    by_test IsStorable (ltb (length buf) 128) (λ e. empty-IsStorable)
      (λ e. record {
        nonce_value = of_be (take 32 buf);
        nonce_nat = refl;
        nonce_fits =
            of_be-below 32 (take 32 buf) (IsBytes-take 32 buf h)
              (omega (arith, length-take 32 buf, long_enough buf e));
        balance_value = of_be (take 32 (drop 32 buf));
        balance_nat = refl;
        balance_fits =
            of_be-below 32 (take 32 (drop 32 buf))
              (IsBytes-take 32 (drop 32 buf) (IsBytes-drop 32 buf h))
              (field_length 32 buf (omega (arith, long_enough buf e)));
        root_length = field_length 64 buf (omega (arith, long_enough buf e));
        code_length = field_length 96 buf (omega (arith, long_enough buf e));
      })
