-- ===== src/Risk/Manager/Defs.antt =====
-- The account state that the risk manager reads and the decision that it gives.
use crypto_bot_quant.Base.{Bool, false, Option, List, [], ◌∷◌, if◌then◌else◌}
use crypto_bot_quant.Base.Result.{Result, ok, ◌>>=◌}
use crypto_bot_quant.Base.Float.{Float, ◌*◌, le, div, nought}
use crypto_bot_quant.Risk.Breakers.{BreakerInputs, BreakerReason}
use crypto_bot_quant.Risk.Portfolio.{PortfolioState}

pub record AccountState (W : Type 0) : Type 0 where
  pub portfolio : PortfolioState W
  pub breakers : BreakerInputs W
  pub unknown_order_present : Bool
  pub free_margin : Option W
  pub liquidation_price : Option W

pub data Action : Type 0 where
  approve resize reject block : Action

pub data Reason (W : Type 0) : Type 0 where
  breaker : BreakerReason W → Reason W
  unknown_order_conflict non_positive_equity invalid_stop_or_price open_position_conflict : Reason W
  max_concurrent_total max_concurrent_per_regime leverage_capped portfolio_heat_cap_full : Reason W
  heat_capped beta_capped net_beta_cap_breach leverage_exceeds_envelope : Reason W
  liquidation_too_close insufficient_free_margin risk_pct_exceeds_envelope : Reason W
  within_all_limits : Reason W
  net_beta_cap_full : W → Reason W
  below_min_order_size below_min_notional : W → Reason W

pub record RiskDecision (W : Type 0) : Type 0 where
  pub approved : Bool
  pub action : Action
  pub qty : W
  pub notional : W
  pub leverage : W
  pub risk_amount : W
  pub risk_pct_used : W
  pub reasons : List (Reason W)
  pub blocker : Option (Reason W)

-- The size while the caps are applied, with the action and the reasons so far.
pub record Sizing (W : Type 0) : Type 0 where
  pub qty : W
  pub action : Action
  pub reasons : List (Reason W)

module _ {W : Type 0} ⦃f : Float W⦄ where
  -- `RiskDecision(False, action, reasons=(r,), blocker=b)`
  abbrev pub refuse : Action → Reason W → Option (Reason W) → RiskDecision W
  refuse action r b = record {
    approved = false;
    action = action;
    qty = nought;
    notional = nought;
    leverage = nought;
    risk_amount = nought;
    risk_pct_used = nought;
    reasons = r ∷ [];
    blocker = b;
  }

  -- `_round_step`, which src/execution/order.py has too.
  unfoldable pub round_step : W → W → Result W
  round_step qty step =
      if le step nought then ok qty else (do n ← div qty step; whole ← f.floor n; ok (whole * step))
