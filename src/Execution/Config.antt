-- ===== src/Execution/Config.antt =====
-- src/execution/config.py: the execution policy, once it is loaded.
use crypto_bot_quant.Base.{Bool, String}

pub record ExecutionPolicyConfig (W : Type 0) : Type 0 where
  pub execution_policy_version : String
  pub default_entry_style : String
  pub max_spread_bps : W
  pub max_slippage_frac : W
  pub max_latency_ms : W
  pub attach_take_profit : Bool
  pub trailing_offset_frac : W
  pub entry_fill_timeout_s : W
  pub entry_fill_poll_interval_s : W
  pub simulated_latency_ms : W
  pub simulated_partial_fill_ratio : W
  pub emergency_close_requires_confirmation : Bool
