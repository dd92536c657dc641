-- ===== src/Schema/Double.antt =====
-- JavaScript numbers where they stand for prices and rates: the constants, operations and tests
-- that the code uses, and the facts of IEEE arithmetic that the theorems rest on.
use ebay_pricing_intelligenc.Prelude.{
  ℕ, ◌*◌, ◌/◌, ◌+◌, ◌-◌, ◌^◌, ◌≡◌, ◌⊎◌, Bool, true, false, leb, ltb, ◌==◌, if◌then◌else◌, arith,
}

pub record Double (W : Type 0) : Type 0 where
  -- The literal n / d.
  pub ratio : ℕ → ℕ → W
  pub epsilon : W
  pub infinity : W
  pub add : W → W → W
  pub sub : W → W → W
  pub mul : W → W → W
  pub div : W → W → W
  -- `Math.round` and `Math.max`
  pub round : W → W
  pub max : W → W → W
  pub le : W → W → Bool
  pub lt : W → W → Bool
  -- Neither zero nor NaN.
  pub truthy : W → Bool
  pub eq : W → W → Bool
  -- `Number.isFinite`
  pub is_finite : W → Bool
  -- `Math.min`
  pub min : W → W → W

abbrev pub ◌≼◌ : {N : Type 0} ⦃num : Double N⦄ → N → N → Type 0
◌≼◌ ⦃num⦄ a b = num.le a b ≡ true

infix 4 ◌≼◌
module _ {W : Type 0} ⦃d : Double W⦄ where
  -- `Math.round((value + Number.EPSILON) * 100) / 100`
  unfoldable pub money : W → W
  money value = d.div (d.round (d.mul (d.add value d.epsilon) (d.ratio 100 1))) (d.ratio 100 1)

  -- `Math.round(value * 100) / 100`
  unfoldable pub cents : W → W
  cents value = d.div (d.round (d.mul value (d.ratio 100 1))) (d.ratio 100 1)

-- The order of numbers that are not NaN, rounding, and `Math.max`.
pub record IsOrdered (W : Type 0) ⦃d : Double W⦄ : Type 0 where
  pub le_refl : (x : W) → x ≼ x
  pub le_trans : (x y z : W) → x ≼ y → y ≼ z → x ≼ z
  pub le_total : (x y : W) → (x ≼ y) ⊎ (y ≼ x)
  pub le_of_not_lt : (x y : W) → d.lt x y ≡ false → y ≼ x
  pub le_of_lt : (x y : W) → d.lt x y ≡ true → x ≼ y
  pub le-max_left : (x y : W) → x ≼ d.max x y
  pub le-max_right : (x y : W) → y ≼ d.max x y
  pub le-mid : (x y : W) → x ≼ y → x ≼ d.div (d.add x y) (d.ratio 2 1)
  pub mid-le : (x y : W) → x ≼ y → d.div (d.add x y) (d.ratio 2 1) ≼ y
  pub money_mono : (x y : W) → x ≼ y → money x ≼ money y
  pub cents_mono : (x y : W) → x ≼ y → cents x ≼ cents y

-- Numbers of ten-thousandths, at which the facts above can be checked.
abbrev pub Fixed : Type 0
Fixed = ℕ

instance abbrev pub fixed_double : Double Fixed
fixed_double = record {
  ratio = λ n d. n * 10_000 / d;
  epsilon = 0;
  infinity = 10 ^ 30;
  add = λ x y. x + y;
  sub = λ x y. x - y;
  mul = λ x y. x * y / 10_000;
  div = λ x y. x * 10_000 / y;
  round = λ x. (x + 5_000) / 10_000 * 10_000;
  max = λ x y. if leb x y then y else x;
  le = leb;
  lt = ltb;
  truthy = λ x. ltb 0 x;
  eq = λ x y. x == y;
  is_finite = λ x. true;
  min = λ x y. if leb x y then x else y;
}

fixed-cents_mono : (x y : Fixed) → leb x y ≡ true → leb (cents x) (cents y) ≡ true
unfolding cents
fixed-cents_mono x y h = ground arith

fixed-money_mono : (x y : Fixed) → leb x y ≡ true → leb (money x) (money y) ≡ true
unfolding money
fixed-money_mono x y h = ground arith

pub Fixed-IsOrdered : IsOrdered Fixed
Fixed-IsOrdered = record {
  le_refl = λ x. ground arith;
  le_trans = λ x y z h k. ground arith;
  le_total = λ x y. ground arith;
  le_of_not_lt = λ x y h. ground arith;
  le_of_lt = λ x y h. ground arith;
  le-max_left = λ x y. ground arith;
  le-max_right = λ x y. ground arith;
  le-mid = λ x y h. ground arith;
  mid-le = λ x y h. ground arith;
  money_mono = fixed-money_mono;
  cents_mono = fixed-cents_mono;
}
