-- ===== src/Base/Value.antt =====
-- A value of a parsed YAML or JSON mapping, as far as the program looks into one, and what `or`,
-- `float` and `isinstance` make of it.
use Prim.Native.String.{String}
use mathlib.Core.Bool.{Bool, true, false, not}
use mathlib.Core.Option.{Option, none, some}
use mathlib.Core.List.{List, [], ◌∷◌}
use crypto_bot_quant.Base.Tests.{str_eq, if◌then◌else◌}
use crypto_bot_quant.Base.Int.{ℤ, pos, leb_ℤ}
use crypto_bot_quant.Base.Result.{Result, ok, raised, type_error}
use crypto_bot_quant.Base.Float.{Float, nought}

pub data Value (W : Type 0) : Type 0 where
  null : Value W
  boolean : Bool → Value W
  int : ℤ → Value W
  float : W → Value W
  text : String → Value W
  items : List String → Value W

module _ {W : Type 0} ⦃f : Float W⦄ where
  -- `bool(v)`
  abbrev pub truthy : Value W → Bool
  truthy null = false
  truthy (boolean b) = b
  truthy (int n) = if leb_ℤ n (pos 0) then not (leb_ℤ (pos 0) n) else true
  truthy (float x) = not (f.eq x nought)
  truthy (text s) = not (str_eq s "")
  truthy (items []) = false
  truthy (items (_ ∷ _)) = true

  -- The value as a float if `isinstance(v, (int, float))`; a bool is an int.
  abbrev pub number? : Value W → Option W
  number? (boolean true) = some (f.of_int (pos 1))
  number? (boolean false) = some (f.of_int (pos 0))
  number? (int n) = some (f.of_int n)
  number? (float x) = some x
  number? null = none
  number? (text s) = none
  number? (items l) = none

  -- `float(v)`
  abbrev pub to_float : Value W → Result W
  to_float (boolean true) = ok (f.of_int (pos 1))
  to_float (boolean false) = ok (f.of_int (pos 0))
  to_float (int n) = ok (f.of_int n)
  to_float (float x) = ok x
  to_float (text s) = f.parse s
  to_float null = raised type_error
  to_float (items l) = raised type_error

  -- `float(v or 0.0)`
  abbrev pub float_or_zero : Value W → Result W
  float_or_zero v = if truthy v then to_float v else ok nought
