-- ===== src/Tests/Reward.antt =====
-- The reward of a block at a concrete input, with doubles that are millionths: a year has two blocks, and the
-- decay factor falls from 1 to 0.85 after the first year.
use Prim.Native.Nat.{max}
use bery_bc.Base.{
  ℕ, ◌-◌, ◌*◌, ◌/◌, ◌≤◌, ◌≡◌, refl, ap, true, some, ltb, if◌then◌else◌, arith, sym, ◌∙◌,
}
use native.Mathlib.Nat.{le-div_iff_mul-le, div-mul-le_self, mul-le-mul_right}
use bery_bc.Base.Int.{pos}
use bery_bc.Base.Throws.{some-inj}
use bery_bc.Bytes.{to_string}
use bery_bc.Bytes.Decimal.{of_decimal, of_decimal-to_string}
use bery_bc.Consensus.Tokenomics.{Doubles, Inflation, IsOrdered}

abbrev million : ℕ
million = 1000000

abbrev millionths : Doubles
millionths = record {
  Double = ℕ;
  of_nat = λ n. n * million;
  minus = λ x y. x - y;
  divide = λ x y. x * million / y;
  times = λ x y. x * y / million;
  power = λ x y. if ltb y million then million else x;
  most = λ x y. max x y;
  floor = λ x. some (x / million);
  print = λ x. to_string 10 (pos (x / million));
}

divide_le : (x y z : ℕ) → million ≤ z → x ≤ y → x * million / z ≤ y * million / z
divide_le x y z positive h =
    (le-div_iff_mul-le (omega (arith, positive))).1
      (omega (arith, div-mul-le_self (x * million) z, h))

times_le : (x y n : ℕ) → x ≤ y → x * (n * million) / million ≤ y * (n * million) / million
times_le x y n h = omega (arith, mul-le-mul_right (n * million) h)

power_falls :
    (x y z : ℕ)
    → x ≤ million
    → y ≤ z
    → (if ltb z million then million else x) ≤ (if ltb y million then million else x)
power_falls x y z one h = ground arith

pos-inj : {a b : ℕ} → pos a ≡ pos b → a ≡ b
pos-inj h = cc

natural : (n : ℕ) → n * million / million ≡ n
natural n = omega arith

millionths-IsOrdered : IsOrdered millionths
millionths-IsOrdered = record {
  Le = λ x y. x ≤ y;
  of_nat_le = λ a b h. omega (arith, h);
  divide_le = λ x y z positive h. divide_le x y z positive h;
  times_le = λ x y n h. times_le x y n h;
  times_least = λ x n h. omega arith;
  power_least = λ x y h. omega arith;
  power_falls = λ x y z least one h. power_falls x y z one h;
  floor_le = λ x y b least h e. (x / million, refl, omega (arith, h, some-inj e));
  most_of_nat = λ a b. omega arith;
  print_le = λ a b r h e. (
    a,
    ap (λ n. of_decimal (to_string 10 (pos n))) (natural a) ∙ of_decimal-to_string (pos a),
    below a b r h e,
  );
}
  where
    below :
        (a b r : ℕ)
        → a ≤ b
        → of_decimal (to_string 10 (pos (b * million / million))) ≡ some (pos r)
        → a ≤ r
    below a b r h e =
        let same_number : pos (b * million / million) ≡ pos r =
          some-inj (sym (of_decimal-to_string (pos (b * million / million))) ∙ e) in
        omega (arith, h, natural b, pos-inj same_number)

abbrev inflation : Inflation ℕ
inflation = record {
  enabled = true;
  block_reward = 13;
  genesis_supply = 100;
  blocks_per_year = 2 * million;
  decay_rate = 150000;
  long_term_rate = 15000;
}
