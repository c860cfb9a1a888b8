-- ===== src/Exchange/Tradable.antt =====
-- The review of a contract spec in src/exchange/metadata.py, and what blocks a symbol. The messages
-- are values of `Contradiction` and of `Blocker`.
pub mod Sized
use crypto_bot_quant.Base.{
  Bool, true, false, not, String, Option, none, some, List, [], ◌∷◌, ◌++◌, ◌&&◌, ◌||◌, str_eq,
  is_empty, any, select, is_some, if◌then◌else◌,
}
use crypto_bot_quant.Base.Int.{ℤ, pos, leb_ℤ}
use crypto_bot_quant.Base.Result.{Result, ok, raised, type_error}
use crypto_bot_quant.Base.Result
use crypto_bot_quant.Base.Dict.{Dict, lookup}
use crypto_bot_quant.Base.Value.{Value, null, boolean, int, float, text, items, number?}
use crypto_bot_quant.Base.Float.{Float, lt, gt, eq, nought}
use crypto_bot_quant.Exchange.Metadata.{VerifiedSpec, MetadataConfig, find_spec}

pub data Contradiction : Type 0 where
  not_positive : String → Contradiction
  bad_leverage negative_maker negative_taker taker_below_maker bad_interval : Contradiction
  not_trading no_order_types : Contradiction

pub data Blocker : Type 0 where
  wrong_exchange unverified no_metadata : Blocker
  incomplete : List String → Blocker
  contradictory : List Contradiction → Blocker

abbrev pub required_fields : List String
required_fields =
    "status" ∷ "contract_type" ∷ "quote_currency" ∷ "tick_size" ∷ "lot_size" ∷ "qty_step"
    ∷ "price_precision" ∷ "min_order_size" ∷ "min_notional" ∷ "max_leverage" ∷ "margin_mode"
    ∷ "position_mode" ∷ "maker_fee" ∷ "taker_fee" ∷ "funding_interval_hours" ∷ "order_types" ∷ []

abbrev pub funding_intervals : List ℤ
funding_intervals = pos 1 ∷ pos 2 ∷ pos 4 ∷ pos 8 ∷ pos 12 ∷ pos 24 ∷ []

-- `if b: out.append(c)`
abbrev pub report : Bool → Contradiction → List Contradiction
report true c = c ∷ []
report false c = []

module _ {W : Type 0} where
  -- `fields.get(key)`, where a missing key reads as None.
  abbrev pub field_of : Dict (Value W) → String → Value W
  field_of fields key = elim (lookup key fields) [ none ↦ null | some v ↦ v ]

  -- `v in (None, "", [])`
  unfoldable pub is_blank : Value W → Bool
  is_blank null = true
  is_blank (text s) = str_eq s ""
  is_blank (items l) = is_empty l
  is_blank (boolean b) = false
  is_blank (int n) = false
  is_blank (float x) = false

  unfoldable pub missing_fields : VerifiedSpec W → List String
  unfolding is_blank
  missing_fields spec = select (λ key. is_blank (field_of spec.fields key)) required_fields

  abbrev pub is_null : Value W → Bool
  is_null null = true
  is_null _ = false

  -- `v is not None and not (isinstance(v, int) and v >= 1)`
  unfoldable pub is_bad_leverage : Value W → Bool
  is_bad_leverage null = false
  is_bad_leverage (int n) = not (leb_ℤ (pos 1) n)
  is_bad_leverage (boolean b) = not b
  is_bad_leverage _ = true

  -- `v not in (None, "trading")`
  unfoldable pub is_bad_status : Value W → Bool
  is_bad_status null = false
  is_bad_status (text s) = not (str_eq s "trading")
  is_bad_status _ = true

  -- `v is not None and not (isinstance(v, list) and v)`
  unfoldable pub is_bad_order_types : Value W → Bool
  is_bad_order_types null = false
  is_bad_order_types (items l) = is_empty l
  is_bad_order_types _ = true

module _ {W : Type 0} ⦃f : Float W⦄ where
  -- `v is not None and v not in _VALID_FUNDING_INTERVALS`; a list has no hash and raises.
  unfoldable pub is_bad_interval : Value W → Result Bool
  is_bad_interval null = ok false
  is_bad_interval (boolean b) = ok (not b)
  is_bad_interval (int n) = ok (not (any (λ i. leb_ℤ n i && leb_ℤ i n) funding_intervals))
  is_bad_interval (float x) = ok (not (any (λ i. eq x (f.of_int i)) funding_intervals))
  is_bad_interval (text s) = ok true
  is_bad_interval (items l) = raised type_error

  -- `isinstance(v, (int, float)) and v > 0`
  unfoldable pub is_positive : Value W → Bool
  is_positive v = elim (number? v) [ none ↦ false | some x ↦ gt x nought ]

  unfoldable pub is_negative : Value W → Bool
  is_negative v = elim (number? v) [ none ↦ false | some x ↦ lt x nought ]

  unfoldable pub is_less : Value W → Value W → Bool
  is_less a b = elim (number? a) [
    | none ↦ false
    | some x ↦ elim (number? b) [ none ↦ false | some y ↦ lt x y ]
  ]

  -- The check of one of the sizes.
  unfoldable pub size_contradiction : Dict (Value W) → String → List Contradiction
  unfolding is_positive
  size_contradiction fields key =
      let v = field_of fields key in
      report (not (is_null v) && not (is_positive v)) (not_positive key)

  -- The list that `contradictions` fills, given whether the funding interval is a bad one.
  unfoldable pub checks : Dict (Value W) → Bool → List Contradiction
  unfolding size_contradiction is_bad_leverage is_negative is_less is_bad_status is_bad_order_types
  checks fields bad_hours =
      let get = field_of fields in
      size_contradiction fields "tick_size"
      ++ (size_contradiction fields "lot_size"
          ++ (size_contradiction fields "qty_step"
              ++ (size_contradiction fields "min_order_size"
                  ++ (size_contradiction fields "min_notional"
                      ++ (report (is_bad_leverage (get "max_leverage")) bad_leverage
                          ++ (report (is_negative (get "maker_fee")) negative_maker
                              ++ (report (is_negative (get "taker_fee")) negative_taker
                                  ++ (report (is_less (get "taker_fee") (get "maker_fee"))
                                        taker_below_maker
                                      ++ (report bad_hours bad_interval
                                          ++ (report (is_bad_status (get "status")) not_trading
                                              ++ report (is_bad_order_types (get "order_types"))
                                                  no_order_types))))))))))

  unfoldable pub contradictions : VerifiedSpec W → Result (List Contradiction)
  unfolding checks is_bad_interval
  contradictions spec =
      Result.map (checks spec.fields)
        (is_bad_interval (field_of spec.fields "funding_interval_hours"))

  -- The contradictions block a symbol whose spec is complete.
  unfoldable pub spec_blocker : VerifiedSpec W → Result (Option Blocker)
  unfolding missing_fields contradictions
  spec_blocker spec =
      let missing = missing_fields spec in
      if not (is_empty missing)
      then ok (some (incomplete missing))
      else Result.◌>>=◌ (contradictions spec)
          λ found. ok (if is_empty found then none else some (contradictory found))

  -- `MetadataConfig.tradable_blocker`; none is no blocker.
  unfoldable pub tradable_blocker :
      MetadataConfig W → String → Option String → Result (Option Blocker)
  unfolding spec_blocker find_spec
  tradable_blocker m symbol exchange_id =
      if elim exchange_id [ none ↦ false | some e ↦ not (str_eq m.exchange_id e) ]
      then ok (some wrong_exchange)
      else if not m.verified
      then ok (some unverified)
      else elim (find_spec m symbol) [
        | none ↦ ok (some no_metadata)
        | some spec ↦ spec_blocker spec
      ]
