-- ===== src/Adaptation/EnvelopeGuard.antt =====
-- src/adaptation/envelope_guard.py: the immutable envelope on a learner's action. The section
-- `GuardResult` has the fields of `ValidationResult` and is that type here. The section
-- `risk.risk_envelope` of the parsed configs/risk.yaml is an argument, or the error of reading it.
use crypto_bot_quant.Base.{
  Bool, not, String, Option, none, some, List, [], ◌∷◌, ◌++◌, ◌&&◌, if◌then◌else◌, elem, is_empty,
  select, sorted,
}
use crypto_bot_quant.Base.Result.{Result, ok, raised, key_error, ◌>>=◌}
use crypto_bot_quant.Base.Dict.{Dict, lookup, keys}
use crypto_bot_quant.Base.Value.{Value, to_float}
use crypto_bot_quant.Base.Float.{Float, ◌*◌, gt, one}
use crypto_bot_quant.Adaptation.ActionSpace.{
  BoundedAction, inactive, forbidden, take_in_mode, ValidationResult, rejected, passed, valid_modes,
  keys_outside,
}

pub record RiskEnvelope (W : Type 0) : Type 0 where
  pub max_leverage : W
  pub max_risk_pct_per_trade : W
  pub portfolio_heat_cap : W
  pub net_beta_btc_cap : W
  pub daily_loss_limit : W
  pub max_drawdown_limit : W

abbrev pub forbidden_tunables : List String
forbidden_tunables =
    "max_leverage" ∷ "max_risk_pct_per_trade" ∷ "portfolio_heat_cap" ∷ "net_beta_btc_cap"
    ∷ "daily_loss_limit" ∷ "max_drawdown_limit" ∷ "stop_price" ∷ "stop_frac" ∷ "leverage"
    ∷ "heat_cap" ∷ "beta_cap" ∷ "drawdown_limit" ∷ "daily_loss" ∷ []

module _ {W : Type 0} ⦃f : Float W⦄ where
  -- `float(env[key])`
  abbrev pub required : Dict (Value W) → String → Result W
  required env key = elim (lookup key env) [ none ↦ raised key_error | some v ↦ to_float v ]

  -- `_load_envelope`
  unfoldable pub load_envelope : Result (Dict (Value W)) → Result (RiskEnvelope W)
  load_envelope raw = do
    env ← raw
    leverage ← required env "max_leverage"
    risk ← required env "max_risk_pct_per_trade"
    heat ← required env "portfolio_heat_cap"
    beta ← required env "net_beta_btc_cap"
    loss ← required env "daily_loss_limit"
    drawdown ← required env "max_drawdown_limit"
    ok record {
      max_leverage = leverage;
      max_risk_pct_per_trade = risk;
      portfolio_heat_cap = heat;
      net_beta_btc_cap = beta;
      daily_loss_limit = loss;
      max_drawdown_limit = drawdown;
    }

  -- A cap on the bucket: 1 where the test holds.
  abbrev pub capped_if : Bool → BoundedAction W × List String → BoundedAction W × List String
  capped_if b (action, clamped) =
      if b
      then (record action { size_bucket = one }, clamped ++ ("size_bucket" ∷ []))
      else (action, clamped)

  -- The two caps on the bucket.
  unfoldable pub cap_size : RiskEnvelope W → BoundedAction W → BoundedAction W × List String
  cap_size env action =
      let (act, clamped) = capped_if (gt action.size_bucket one) (action, []) in
      capped_if (gt (act.size_bucket * env.max_risk_pct_per_trade) env.max_risk_pct_per_trade)
        (act, clamped)

  -- The strategies of the action that are not active, if the active ones are given.
  unfoldable pub bad_strategies : Option (List String) → BoundedAction W → List String
  bad_strategies none action = []
  bad_strategies (some active) action = keys_outside active action.strategy_weights

  -- `sorted(set(act.param_nudges) & _FORBIDDEN_TUNABLES)`
  abbrev pub forbidden_hit : BoundedAction W → List String
  forbidden_hit action = sorted (select (λ k. elem k forbidden_tunables) (keys action.param_nudges))

  -- The checks of the capped action.
  unfoldable pub check : Option (List String) → BoundedAction W → List String → ValidationResult W
  check active_strategies act clamped =
      let bad = bad_strategies active_strategies act in
      let hit = forbidden_hit act in
      if not (is_empty bad)
      then rejected act clamped (inactive bad)
      else if not (is_empty hit)
      then rejected act clamped (forbidden hit)
      else if act.take && not (elem act.mode valid_modes)
      then rejected act clamped (take_in_mode act.mode)
      else passed act clamped

  unfoldable pub enforce :
      Result (Dict (Value W))
      → Option (List String)
      → Option (RiskEnvelope W)
      → BoundedAction W
      → Result (ValidationResult W)
  enforce raw active_strategies envelope action = do
    env ← elim envelope [ some e ↦ ok e | none ↦ load_envelope raw ]
    let (act, clamped) = cap_size env action
    ok (check active_strategies act clamped)
