-- ===== src/Consensus/Tokenomics.antt =====
-- src/consensus/tokenomics.ts: the reward of a block. The numbers of JavaScript are the record `Doubles`.
-- The settings are not negative, and the rewards and the supply are whole numbers.
use Prim.Native.Nat.{max}
use bery_bc.Base.{ℕ, ◌*◌, ◌/◌, ◌^◌, ◌≤◌, ◌≡◌, Bool, true, Option, none, some, ◌==◌, if◌then◌else◌}
use bery_bc.Base.Int.{ℤ, pos}
use bery_bc.Base.Throws.{◌>>=◌}
use bery_bc.Bytes.{Text}
use bery_bc.Bytes.Decimal.{of_decimal}

-- `of_nat` is `Number` of a `BigInt`, `floor` is `BigInt(Math.floor(x))` with `none` for its throw, `most` is
-- `Math.max`, and `print` is `toString`.
pub record Doubles : Type 1 where
  pub Double : Type 0
  pub of_nat : ℕ → Double
  pub minus : Double → Double → Double
  pub divide : Double → Double → Double
  pub times : Double → Double → Double
  pub power : Double → Double → Double
  pub most : Double → Double → Double
  pub floor : Double → Option ℕ
  pub print : Double → Text

-- `config.consensus`, as far as the reward reads it.
pub record Inflation (Double : Type 0) : Type 0 where
  pub enabled : Bool
  pub block_reward : ℕ
  pub genesis_supply : ℕ
  pub blocks_per_year : Double
  pub decay_rate : Double
  pub long_term_rate : Double

-- `WEI`
abbrev pub wei : ℕ
wei = 10 ^ 18

module _ (d : Doubles) where
  open d use {Double, of_nat, minus, divide, times, power, most, floor, print}

  -- `BigInt(Math.floor(x * 1e6))`
  abbrev pub micro : Double → Option ℕ
  micro x = floor (times x (of_nat (10 ^ 6)))

  -- `Math.pow(1 - decay, height / blocksPerYear)`
  abbrev pub decay_factor : Inflation Double → ℕ → Double
  decay_factor g height =
      power (minus (of_nat 1) g.decay_rate) (divide (of_nat height) g.blocks_per_year)

  -- A division of a `BigInt` by zero throws.
  unfoldable pub min_reward : Inflation Double → Option ℕ
  min_reward g = do
    rate ← micro g.long_term_rate
    per_year ← micro g.blocks_per_year
    if per_year == 0 then none else some (g.genesis_supply * wei * rate / per_year)

  unfoldable pub decayed_reward : Inflation Double → ℕ → Option ℕ
  decayed_reward g height = do
    factor ← micro (decay_factor g height)
    some (g.block_reward * wei * factor / 10 ^ 6)

  -- `getBlockReward`; `none` where it throws.
  unfoldable pub get_block_reward : Inflation Double → ℕ → Option ℤ
  unfolding min_reward decayed_reward
  get_block_reward g height =
      if g.enabled
      then (min_reward g >>= λ least. decayed_reward g height >>= λ decayed.
          of_decimal (print (most (of_nat least) (of_nat decayed))))
      else some (pos (g.block_reward * wei))

  -- The order of doubles, and how the operations that the code uses keep it; a power of a number up to one
  -- falls in its exponent. Where a natural number prints as decimal digits, a smaller one does too, and the
  -- digits keep the order.
  pub record IsOrdered : Type 1 where
    pub Le : Double → Double → Type 0
    pub of_nat_le : (a b : ℕ) → a ≤ b → Le (of_nat a) (of_nat b)
    pub divide_le : (x y z : Double) → Le (of_nat 1) z → Le x y → Le (divide x z) (divide y z)
    pub times_le : (x y : Double) (n : ℕ) → Le x y → Le (times x (of_nat n)) (times y (of_nat n))
    pub times_least : (x : Double) (n : ℕ) → Le (of_nat 0) x → Le (of_nat 0) (times x (of_nat n))
    pub power_least : (x y : Double) → Le (of_nat 0) x → Le (of_nat 0) (power x y)
    pub power_falls :
        (x y z : Double) → Le (of_nat 0) x → Le x (of_nat 1) → Le y z → Le (power x z) (power x y)
    pub floor_le :
        (x y : Double) (b : ℕ)
        → Le (of_nat 0) x
        → Le x y
        → floor y ≡ some b
        → (a : ℕ) × (floor x ≡ some a) × (a ≤ b)
    pub most_of_nat : (a b : ℕ) → most (of_nat a) (of_nat b) ≡ of_nat (max a b)
    pub print_le :
        (a b r : ℕ)
        → a ≤ b
        → of_decimal (print (of_nat b)) ≡ some (pos r)
        → (q : ℕ) × (of_decimal (print (of_nat a)) ≡ some (pos q)) × (q ≤ r)

  -- The decay is on, its rate is from zero to one, and a year has at least one block.
  pub record IsDecaying (o : IsOrdered) (g : Inflation Double) : Type 0 where
    pub on : g.enabled ≡ true
    pub least : o.Le (of_nat 0) (minus (of_nat 1) g.decay_rate)
    pub at_most_one : o.Le (minus (of_nat 1) g.decay_rate) (of_nat 1)
    pub year : o.Le (of_nat 1) g.blocks_per_year
