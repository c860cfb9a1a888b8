-- ===== src/Adaptation/Policy.antt =====
-- src/adaptation/policy_base.py: what a learner sees and reports, and its interface. Time stamps,
-- which nothing modelled looks at, are left out.
use crypto_bot_quant.Base.{Bool, String, Option}
use crypto_bot_quant.Base.Result.{Result}
use crypto_bot_quant.Base.Dict.{Dict}
use crypto_bot_quant.Base.Value.{Value}
use crypto_bot_quant.Adaptation.ActionSpace.{BoundedAction}

pub record Context (W : Type 0) : Type 0 where
  pub symbol : Option String
  pub regime : Option String
  pub signal_strength : W
  pub expected_edge_frac : W
  pub spread_bps : W
  pub slippage_est : W
  pub atr_pct : W
  pub funding_z : W
  pub strategy_id : Option String
  pub config_version : String
  pub extra : Dict (Value W)

pub record Outcome (W : Type 0) : Type 0 where
  pub realized_pnl_r : Option W
  pub trade_taken : Bool

-- A learner over the states P: each call may change the state and may raise. `fresh` is the
-- constructor without arguments, which the fallback is loaded into.
pub record Policy (W P Blob : Type 0) : Type 0 where
  pub decide : Context W → P → P × Result (BoundedAction W)
  pub update : Context W → BoundedAction W → Outcome W → P → P × Result (Unit {0})
  pub snapshot : P → Blob
  pub fresh : Result P
  pub load : Blob → P → Result P
