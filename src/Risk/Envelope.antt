-- ===== src/Risk/Envelope.antt =====
-- src/risk/envelope.py: the immutable risk envelope, clamped to the ceilings of the code.
use crypto_bot_quant.Base.{true, false, String, none, some, ◌≡◌, refl, if◌then◌else◌, arith}
use crypto_bot_quant.Base.Float.{Float, IsOrdered, IsNumber, lt, le, min, nought}
use crypto_bot_quant.Base.Dict.{Dict, lookup}
use crypto_bot_quant.Base.Value.{Value, float, null, number?}

-- The keys of `HARD_CEILINGS`, which are the fields of the envelope.
pub data Field : Type 0 where
  max_leverage max_risk_pct_per_trade portfolio_heat_cap net_beta_btc_cap : Field
  daily_loss_limit max_drawdown_limit : Field

abbrev pub field_name : Field → String
field_name max_leverage = "max_leverage"
field_name max_risk_pct_per_trade = "max_risk_pct_per_trade"
field_name portfolio_heat_cap = "portfolio_heat_cap"
field_name net_beta_btc_cap = "net_beta_btc_cap"
field_name daily_loss_limit = "daily_loss_limit"
field_name max_drawdown_limit = "max_drawdown_limit"

pub record RiskEnvelope (W : Type 0) : Type 0 where
  pub max_leverage : W
  pub max_risk_pct_per_trade : W
  pub portfolio_heat_cap : W
  pub net_beta_btc_cap : W
  pub daily_loss_limit : W
  pub max_drawdown_limit : W

abbrev pub get : {W : Type 0} → RiskEnvelope W → Field → W
get e max_leverage = e.max_leverage
get e max_risk_pct_per_trade = e.max_risk_pct_per_trade
get e portfolio_heat_cap = e.portfolio_heat_cap
get e net_beta_btc_cap = e.net_beta_btc_cap
get e daily_loss_limit = e.daily_loss_limit
get e max_drawdown_limit = e.max_drawdown_limit

module _ {W : Type 0} ⦃f : Float W⦄ where
  abbrev pub hard_ceiling : Field → W
  hard_ceiling max_leverage = f.lit 10 0
  hard_ceiling max_risk_pct_per_trade = f.lit 2 2
  hard_ceiling portfolio_heat_cap = f.lit 10 2
  hard_ceiling net_beta_btc_cap = f.lit 60 2
  hard_ceiling daily_loss_limit = f.lit 10 2
  hard_ceiling max_drawdown_limit = f.lit 25 2

  abbrev pub safe_default : Field → W
  safe_default max_leverage = f.lit 5 0
  safe_default max_risk_pct_per_trade = f.lit 1 2
  safe_default portfolio_heat_cap = f.lit 5 2
  safe_default net_beta_btc_cap = f.lit 30 2
  safe_default daily_loss_limit = f.lit 3 2
  safe_default max_drawdown_limit = f.lit 10 2

  -- `_clamp` on a number, and on a value that is none.
  unfoldable pub clamp : Field → Value W → W
  clamp field value = elim (number? value) [
    | none ↦ min (safe_default field) (hard_ceiling field)
    | some x ↦
        if le x nought
        then min (safe_default field) (hard_ceiling field)
        else min x (hard_ceiling field)
  ]

  -- `raw.get(field)`
  abbrev pub raw_field : Dict (Value W) → Field → Value W
  raw_field raw field = elim (lookup (field_name field) raw) [ none ↦ null | some v ↦ v ]

  unfoldable pub from_config : Dict (Value W) → RiskEnvelope W
  from_config raw = record {
    max_leverage = clamp max_leverage (raw_field raw max_leverage);
    max_risk_pct_per_trade = clamp max_risk_pct_per_trade (raw_field raw max_risk_pct_per_trade);
    portfolio_heat_cap = clamp portfolio_heat_cap (raw_field raw portfolio_heat_cap);
    net_beta_btc_cap = clamp net_beta_btc_cap (raw_field raw net_beta_btc_cap);
    daily_loss_limit = clamp daily_loss_limit (raw_field raw daily_loss_limit);
    max_drawdown_limit = clamp max_drawdown_limit (raw_field raw max_drawdown_limit);
  }

  get-from_config :
      (raw : Dict (Value W)) (field : Field)
      → get (from_config raw) field ≡ clamp field (raw_field raw field)
  unfolding from_config
  get-from_config raw max_leverage = refl
  get-from_config raw max_risk_pct_per_trade = refl
  get-from_config raw portfolio_heat_cap = refl
  get-from_config raw net_beta_btc_cap = refl
  get-from_config raw daily_loss_limit = refl
  get-from_config raw max_drawdown_limit = refl

  clamp-le-ceiling :
      (field : Field) (v : Value W) → IsOrdered W → lt (hard_ceiling field) (clamp field v) ≡ false
  unfolding clamp
  clamp-le-ceiling field v o = ground (arith, o.lt_irrefl (hard_ceiling field))

  -- No configuration, whatever its values, puts a field of the envelope above the ceiling in code.
  pub from_config_within_ceilings :
      (raw : Dict (Value W)) (field : Field)
      → IsOrdered W
      → lt (hard_ceiling field) (get (from_config raw) field) ≡ false
  from_config_within_ceilings raw field o =
      rw (get-from_config raw field) (clamp-le-ceiling field (raw_field raw field) o)

  -- A field that is missing or is no number above zero gets the conservative default, and a
  -- positive number is never raised.
  pub from_config_fails_closed :
      (raw : Dict (Value W)) (field : Field)
      → IsOrdered W
      → (number? (raw_field raw field) ≡ none
          → get (from_config raw) field ≡ min (safe_default field) (hard_ceiling field))
        × ((x : W)
            → number? (raw_field raw field) ≡ some x
            → (le x nought ≡ true
                → get (from_config raw) field ≡ min (safe_default field) (hard_ceiling field))
              × (le x nought ≡ false → lt x (get (from_config raw) field) ≡ false))
  unfolding clamp
  from_config_fails_closed raw field o = rw (get-from_config raw field) (
    λ e. ground arith,
    λ x e. (
      λ low. ground arith,
      λ high. ground (
        arith,
        o.lt_irrefl x,
        o.le-not-lt (hard_ceiling field) x,
        o.le-of-lt (hard_ceiling field) x,
      ),
    ),
  )

  -- NaN passes the clamp: a field configured as NaN is NaN in the envelope, and no value is above
  -- or at such a limit.
  pub from_config_passes_nan :
      (raw : Dict (Value W)) (field : Field) (x : W)
      → IsOrdered W
      → raw_field raw field ≡ float x
      → ¬ (IsNumber x)
      → (get (from_config raw) field ≡ x) × ((y : W) → (le x y ≡ false) × (lt x y ≡ false))
  unfolding clamp
  from_config_passes_nan raw field x o e nan =
      rw (get-from_config raw field, e)
        (
          ground (
            arith,
            nan,
            o.number-left x nought,
            o.le-of-lt (hard_ceiling field) x,
            o.number-right (hard_ceiling field) x,
          ),
          λ y. ground (arith, nan, o.number-left x y, o.le-of-lt x y),
        )
