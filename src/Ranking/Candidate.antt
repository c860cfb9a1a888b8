-- ===== src/Ranking/Candidate.antt =====
-- src/ranking/candidate.py: one deterministic trade candidate at one decision time.
use crypto_bot_quant.Base.{Bool, String}
use crypto_bot_quant.Base.Int.{ℤ}
use crypto_bot_quant.Base.Dict.{Dict}
use crypto_bot_quant.Base.Float.{Float, ◌+◌, ◌-◌, ◌*◌, one}

pub record Candidate (W : Type 0) : Type 0 where
  pub symbol : String
  pub strategy : String
  pub strategy_version : String
  pub side : ℤ  -- +1 long, -1 short
  pub entry_price : W
  pub stop_frac : W
  pub tp_frac : W
  pub regime : String
  pub session : ℤ
  pub features : Dict W
  pub signal_strength : W
  pub confirmation : W
  pub expected_edge_frac : W
  pub spread_bps : W
  pub slippage_est : W
  pub latency_ms : W
  pub data_fresh : Bool
  pub metadata_verified : Bool
  pub symbol_tradable : Bool
  pub strategy_enabled : Bool
  pub config_live_approved : Bool
  pub decision_ts : ℤ
  pub maker : Bool
  pub limit_offset_frac : W
  pub trail_frac : W
  pub hold_bars : ℤ
  pub risk_scale : W

module _ {W : Type 0} ⦃f : Float W⦄ where
  unfoldable pub stop_price : Candidate W → W
  stop_price c = c.entry_price * (one - f.of_int c.side * c.stop_frac)

  unfoldable pub tp_price : Candidate W → W
  tp_price c = c.entry_price * (one + f.of_int c.side * c.tp_frac)
