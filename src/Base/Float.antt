-- ===== src/Base/Float.antt =====
-- Python's float as an abstract type: its operations, and the laws of IEEE 754 that theorems name.
-- No law holds of NaN that does not hold in IEEE 754: an order test with NaN is false.
use mathlib.Core.Path.{◌≡◌}
use mathlib.Core.Bool.{Bool, true, false}
use mathlib.Core.List.{List}
use Prim.Native.Nat.{ℕ}
use Prim.Native.String.{String}
use crypto_bot_quant.Base.Tests.{if◌then◌else◌}
use crypto_bot_quant.Base.Int.{ℤ}
use crypto_bot_quant.Base.Result.{Result, ok, raised, zero_division_error}

-- `lit n k` is the literal with the digits of n and k decimals, the float nearest to n / 10^k.
-- `quot` is the quotient by a divisor that is not zero. `floor` and `ceil` raise on NaN and on an
-- infinity; they return the integer as a float. `sum` is the builtin, which is not a plain fold.
-- `parse` is `float` on a text, `inf` the infinity.
pub record Float (W : Type 0) : Type 0 where
  pub lit : ℕ → ℕ → W
  pub of_int : ℤ → W
  pub lt : W → W → Bool
  pub le : W → W → Bool
  pub eq : W → W → Bool
  pub add : W → W → W
  pub sub : W → W → W
  pub mul : W → W → W
  pub quot : W → W → W
  pub neg : W → W
  pub abs : W → W
  pub floor : W → Result W
  pub ceil : W → Result W
  pub sum : List W → W
  pub parse : String → Result W
  pub inf : W

module _ {W : Type 0} ⦃f : Float W⦄ where
  infixl 65 ◌+◌ ◌-◌
  infixl 70 ◌*◌
  abbrev pub ◌+◌ : W → W → W
  ◌+◌ = f.add

  abbrev pub ◌-◌ : W → W → W
  ◌-◌ = f.sub

  abbrev pub ◌*◌ : W → W → W
  ◌*◌ = f.mul

  abbrev pub lt : W → W → Bool
  lt = f.lt

  abbrev pub le : W → W → Bool
  le = f.le

  abbrev pub gt : W → W → Bool
  gt a b = f.lt b a

  abbrev pub ge : W → W → Bool
  ge a b = f.le b a

  abbrev pub eq : W → W → Bool
  eq = f.eq

  abbrev pub nought : W
  nought = f.lit 0 0

  abbrev pub one : W
  one = f.lit 1 0

  -- `a / b`
  abbrev pub div : W → W → Result W
  div a b = if f.eq b nought then raised zero_division_error else ok (f.quot a b)

  -- The builtins return the first of two values unless the second is strictly better.
  abbrev pub max : W → W → W
  max a b = if f.lt a b then b else a

  abbrev pub min : W → W → W
  min a b = if f.lt b a then b else a

  -- A value that is not NaN.
  abbrev pub IsNumber : W → Type 0
  IsNumber a = f.le a a ≡ true

-- The laws of the order, which hold of every value, NaN included.
pub record IsOrdered (W : Type 0) ⦃f : Float W⦄ : Type 0 where
  pub lt_irrefl : (a : W) → f.lt a a ≡ false
  pub lt_trans : (a b c : W) → f.lt a b ≡ true → f.lt b c ≡ true → f.lt a c ≡ true
  pub le_trans : (a b c : W) → f.le a b ≡ true → f.le b c ≡ true → f.le a c ≡ true
  pub le-of-lt : (a b : W) → f.lt a b ≡ true → f.le a b ≡ true
  pub le-lt-trans : (a b c : W) → f.le a b ≡ true → f.lt b c ≡ true → f.lt a c ≡ true
  pub lt-le-trans : (a b c : W) → f.lt a b ≡ true → f.le b c ≡ true → f.lt a c ≡ true
  pub number-left : (a b : W) → f.le a b ≡ true → f.le a a ≡ true
  pub number-right : (a b : W) → f.le a b ≡ true → f.le b b ≡ true
  pub le-not-lt : (a b : W) → f.le a b ≡ true → f.lt b a ≡ false
  pub le-of-not-lt :
      (a b : W) → f.le a a ≡ true → f.le b b ≡ true → f.lt b a ≡ false → f.le a b ≡ true
  pub le-of-eq : (a b : W) → f.eq a b ≡ true → f.le a b ≡ true
  pub eq_sym : (a b : W) → f.eq a b ≡ true → f.eq b a ≡ true
  pub number-lit : (n k : ℕ) → f.le (f.lit n k) (f.lit n k) ≡ true

-- Rounding keeps the order of sums and differences that are numbers.
pub record IsMonotone (W : Type 0) ⦃f : Float W⦄ : Type 0 where
  pub sub-mono :
      (a b c : W)
      → f.le a b ≡ true
      → IsNumber (a - c)
      → IsNumber (b - c)
      → f.le (a - c) (b - c) ≡ true
  pub add-mono :
      (a b c : W)
      → f.le a b ≡ true
      → IsNumber (a + c)
      → IsNumber (b + c)
      → f.le (a + c) (b + c) ≡ true
