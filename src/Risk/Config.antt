-- ===== src/Risk/Config.antt =====
-- src/risk/config.py: the risk manager's configuration, once it is loaded.
use crypto_bot_quant.Base.{Bool, String}
use crypto_bot_quant.Base.Int.{ℤ}
use crypto_bot_quant.Base.Dict.{Dict, get_or}
use crypto_bot_quant.Risk.Envelope.{RiskEnvelope}

pub record BreakerConfig (W : Type 0) : Type 0 where
  pub consecutive_loss_limit : ℤ
  pub abnormal_slippage_cooldown : Bool
  pub require_reconciled : Bool
  pub weekly_loss_limit : W
  pub per_symbol_loss_limit : W
  pub funding_breaker_limit : W
  pub min_liquidation_distance : W
  pub min_free_margin_frac : W

pub record RiskConfig (W : Type 0) : Type 0 where
  pub risk_policy_version : String
  pub envelope : RiskEnvelope W
  pub base_risk_pct : W
  pub max_concurrent_total : ℤ
  pub max_concurrent_per_symbol : ℤ
  pub max_concurrent_per_regime : ℤ
  pub breakers : BreakerConfig W
  pub symbol_beta_to_btc : Dict W
  pub default_beta_to_btc : W

unfoldable pub beta_to_btc : {W : Type 0} → RiskConfig W → String → W
beta_to_btc c symbol = get_or symbol c.default_beta_to_btc c.symbol_beta_to_btc
