-- ===== src/Base/Nano.antt =====
-- An instance of `Float`, for tests: exact multiples of 10^-9, with products and quotients cut
-- off, `none` for NaN and a large number for the infinity.
use Prim.Native.Nat.{ℕ, ◌+◌, ◌-◌, ◌*◌, ◌/◌, ◌^◌}
use mathlib.Core.Bool.{Bool, false, ◌&&◌}
use mathlib.Core.List.{List, [], ◌∷◌}
use mathlib.Core.Option
use mathlib.Core.Option.{Option, none, some}
use native.Mathlib.Omega.{arith}
use crypto_bot_quant.Base.Tests.{ltb}
use crypto_bot_quant.Base.Int.{ℤ, pos, negsuc, pos_part, neg_part, sub_ℕ, ltb_ℤ, leb_ℤ}
use crypto_bot_quant.Base.Result.{Result, ok, raised, value_error}
use crypto_bot_quant.Base.Float.{Float, IsOrdered, IsMonotone}

abbrev pub Nano : Type 0
Nano = Option ℤ

abbrev unit : ℕ
unit = 1000000000

abbrev is_neg : ℤ → Bool
is_neg a = ltb 0 (neg_part a)

abbrev magnitude : ℤ → ℕ
magnitude a = pos_part a + neg_part a

abbrev negate : ℤ → ℤ
negate a = sub_ℕ (neg_part a) (pos_part a)

-- A value with the sign of the product of `a` and `b`.
abbrev signed : ℤ → ℤ → ℕ → ℤ
signed (pos _) (pos _) n = pos n
signed (negsuc _) (negsuc _) n = pos n
signed _ _ n = sub_ℕ 0 n

abbrev ceil_units : ℕ → ℕ
ceil_units n = (n + (unit - 1)) / unit * unit

abbrev floor_units : ℕ → ℕ
floor_units n = n / unit * unit

abbrev floor : ℤ → ℤ
floor a = sub_ℕ (floor_units (pos_part a)) (ceil_units (neg_part a))

abbrev ceil : ℤ → ℤ
ceil a = sub_ℕ (ceil_units (pos_part a)) (floor_units (neg_part a))

abbrev test : (ℤ → ℤ → Bool) → Nano → Nano → Bool
test p (some a) (some b) = p a b
test p (some a) none = false
test p none b = false

abbrev lift : (ℤ → ℤ → ℤ) → Nano → Nano → Nano
lift op (some a) (some b) = some (op a b)
lift op (some a) none = none
lift op none b = none

abbrev to_integer : (ℤ → ℤ) → Nano → Result Nano
to_integer op (some a) = ok (some (op a))
to_integer op none = raised value_error

abbrev plus : ℤ → ℤ → ℤ
plus a b = sub_ℕ (pos_part a + pos_part b) (neg_part a + neg_part b)

abbrev sum : List Nano → Nano
sum [] = some (pos 0)
sum (x ∷ xs) = lift plus x (sum xs)

instance abbrev pub nano_float : Float Nano
nano_float = record {
  lit = λ n k. some (pos (n * unit / 10 ^ k));
  of_int = λ n. some (sub_ℕ (pos_part n * unit) (neg_part n * unit));
  lt = test ltb_ℤ;
  le = test leb_ℤ;
  eq = test (λ a b. leb_ℤ a b && leb_ℤ b a);
  add = lift plus;
  sub = lift (λ a b. sub_ℕ (pos_part a + neg_part b) (neg_part a + pos_part b));
  mul = lift (λ a b. signed a b (magnitude a * magnitude b / unit));
  quot = lift (λ a b. signed a b (magnitude a * unit / magnitude b));
  neg = Option.map negate;
  abs = Option.map (λ a. pos (magnitude a));
  floor = to_integer floor;
  ceil = to_integer ceil;
  sum = sum;
  parse = λ s. raised value_error;
  inf = some (pos (10 ^ 40));
}

-- A decimal with n digits after k places.
abbrev pub dec : ℕ → ℕ → Nano
dec n k = nano_float.lit n k

pub Nano-IsOrdered : IsOrdered Nano
Nano-IsOrdered = record {
  lt_irrefl = λ a. ground arith;
  lt_trans = λ a b c h k. ground arith;
  le_trans = λ a b c h k. ground arith;
  le-of-lt = λ a b h. ground arith;
  le-lt-trans = λ a b c h k. ground arith;
  lt-le-trans = λ a b c h k. ground arith;
  number-left = λ a b h. ground arith;
  number-right = λ a b h. ground arith;
  le-not-lt = λ a b h. ground arith;
  le-of-not-lt = λ a b h k l. ground arith;
  le-of-eq = λ a b h. ground arith;
  eq_sym = λ a b h. ground arith;
  number-lit = λ n k. ground arith;
}

pub Nano-IsMonotone : IsMonotone Nano
Nano-IsMonotone = record {
  sub-mono = λ a b c h k l. ground arith;
  add-mono = λ a b c h k l. ground arith;
}
