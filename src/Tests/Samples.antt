-- ===== src/Tests/Samples.antt =====
-- The account, the candidate, the contract and the venue that the tests share.
use crypto_bot_quant.Base.{
  true, false, String, none, some, [], ◌∷◌, ◌≡◌, ◌≢◌, str_eq, eq_iff, arith,
}
use crypto_bot_quant.Base.Int.{pos}
use crypto_bot_quant.Base.Value.{float}
use crypto_bot_quant.Base.Nano.{Nano, dec}
use crypto_bot_quant.Exchange.Metadata.{VerifiedSpec, MetadataConfig}
use crypto_bot_quant.Ranking.Candidate.{Candidate}
use crypto_bot_quant.Risk.Envelope.{RiskEnvelope}
use crypto_bot_quant.Risk.Config.{RiskConfig}
use crypto_bot_quant.Risk.Breakers.{BreakerInputs}
use crypto_bot_quant.Risk.Manager.Defs.{AccountState, RiskDecision, approve, within_all_limits}
use crypto_bot_quant.Execution.Config.{ExecutionPolicyConfig}
use crypto_bot_quant.Execution.Ownership.{OwnershipPolicy}
use crypto_bot_quant.Execution.Order.{Order, OrderPlan, buy, sell, post_only, stop_market, Role}
use crypto_bot_quant.Execution.Venue.{SimulatedVenue, Terms}
use crypto_bot_quant.Execution.Engine.{Request}

abbrev pub envelope : RiskEnvelope Nano
envelope = record {
  max_leverage = dec 5 0;
  max_risk_pct_per_trade = dec 1 2;
  portfolio_heat_cap = dec 5 2;
  net_beta_btc_cap = dec 30 2;
  daily_loss_limit = dec 3 2;
  max_drawdown_limit = dec 10 2;
}

abbrev pub risk_config : RiskConfig Nano
risk_config = record {
  risk_policy_version = "risk_1";
  envelope = envelope;
  base_risk_pct = dec 5 3;
  max_concurrent_total = pos 3;
  max_concurrent_per_symbol = pos 1;
  max_concurrent_per_regime = pos 2;
  breakers = record {
    consecutive_loss_limit = pos 3;
    abnormal_slippage_cooldown = true;
    require_reconciled = true;
    weekly_loss_limit = dec 6 2;
    per_symbol_loss_limit = dec 2 2;
    funding_breaker_limit = dec 1 2;
    min_liquidation_distance = dec 5 2;
    min_free_margin_frac = dec 20 2;
  };
  symbol_beta_to_btc = ("BTC", dec 1 0) ∷ [];
  default_beta_to_btc = dec 15 1;
}

-- An equity of 10000 and nothing lost.
abbrev pub calm : BreakerInputs Nano
calm = record {
  equity = dec 10000 0;
  peak_equity = dec 10000 0;
  daily_pnl = dec 0 0;
  consecutive_losses = pos 0;
  abnormal_slippage_active = false;
  reconciled = true;
  weekly_pnl = dec 0 0;
  cumulative_funding_paid = dec 0 0;
  per_symbol_pnl = [];
}

abbrev pub account : AccountState Nano
account = record {
  portfolio = record { equity = dec 10000 0; positions = [] };
  breakers = calm;
  unknown_order_present = false;
  free_margin = some (dec 9000 0);
  liquidation_price = some (dec 80 0);
}

abbrev pub long_btc : Candidate Nano
long_btc = record {
  symbol = "BTC";
  strategy = "momentum";
  strategy_version = "1";
  side = pos 1;
  entry_price = dec 100 0;
  stop_frac = dec 2 2;
  tp_frac = dec 4 2;
  regime = "R1";
  session = pos 0;
  features = [];
  signal_strength = dec 1 0;
  confirmation = dec 1 0;
  expected_edge_frac = dec 1 2;
  spread_bps = dec 1 0;
  slippage_est = dec 1 3;
  latency_ms = dec 50 0;
  data_fresh = true;
  metadata_verified = true;
  symbol_tradable = true;
  strategy_enabled = true;
  config_live_approved = true;
  decision_ts = pos 1700000000000;
  maker = false;
  limit_offset_frac = dec 0 0;
  trail_frac = dec 1 2;
  hold_bars = pos 10;
  risk_scale = dec 1 0;
}

abbrev pub contract : VerifiedSpec Nano
contract = record {
  symbol = "BTC";
  fields =
      ("tick_size", float (dec 1 1))
      ∷ ("qty_step", float (dec 1 1))
      ∷ ("min_order_size", float (dec 1 1))
      ∷ ("min_notional", float (dec 5 0))
      ∷ [];
}

abbrev pub metadata : MetadataConfig Nano
metadata = record {
  exchange_id = "bybit";
  metadata_version = "1";
  verified_against = "api";
  verified_at = "2026-07-01";
  supported_order_types = [];
  specs = ("BTC", contract) ∷ [];
  verified = true;
}

abbrev pub approved_25 : RiskDecision Nano
approved_25 = record {
  approved = true;
  action = approve;
  qty = dec 25 0;
  notional = dec 2500 0;
  leverage = dec 25 2;
  risk_amount = dec 50 0;
  risk_pct_used = dec 5 3;
  reasons = within_all_limits ∷ [];
  blocker = none;
}

abbrev pub policy : ExecutionPolicyConfig Nano
policy = record {
  execution_policy_version = "exec_1";
  default_entry_style = "taker";
  max_spread_bps = dec 10 0;
  max_slippage_frac = dec 5 3;
  max_latency_ms = dec 500 0;
  attach_take_profit = true;
  trailing_offset_frac = dec 0 0;
  entry_fill_timeout_s = dec 5 0;
  entry_fill_poll_interval_s = dec 1 0;
  simulated_latency_ms = dec 20 0;
  simulated_partial_fill_ratio = dec 1 0;
  emergency_close_requires_confirmation = true;
}

abbrev pub ownership : OwnershipPolicy
ownership = record {
  prefix = "qb_";
  bot_instance_id = "bot_1";
  strategy_version = "1";
  config_version = "1";
  session_token = "a1b2c3";
  counter = 1;
}

abbrev pub venue : SimulatedVenue Nano
venue = record {
  meta = metadata;
  open_orders = [];
  positions = [];
  fills = [];
  cancelled = [];
  replace_counter = 0;
}

abbrev pub request : Request Nano
request = record {
  realized_slippage_frac = none;
  signal_age_ms = dec 0 0;
  fill_ratio = dec 1 0;
  entry_style = none;
}

abbrev pub whole_fill : Terms Nano
whole_fill = record {
  ref_price = dec 100 0;
  realized_slippage_frac = dec 0 0;
  latency_ms = dec 20 0;
  spread_bps = dec 1 0;
  signal_age_ms = dec 0 0;
  fill_ratio = dec 1 0;
}

abbrev pub entry_order : Order Nano
entry_order = record {
  client_id = "qb_entry";
  symbol = "BTC";
  side = buy;
  qty = dec 1 0;
  order_type = post_only;
  role = Role.entry;
  price = some (dec 100 0);
  stop_price = none;
  trail_offset = none;
  is_reduce_only = false;
  tags = ("bot_instance_id", "bot_1") ∷ [];
}

abbrev pub stop_order : Order Nano
stop_order = record {
  client_id = "qb_stop";
  symbol = "BTC";
  side = sell;
  qty = dec 1 0;
  order_type = stop_market;
  role = Role.stop;
  price = none;
  stop_price = some (dec 98 0);
  trail_offset = none;
  is_reduce_only = true;
  tags = ("bot_instance_id", "bot_1") ∷ [];
}

abbrev pub small_plan : OrderPlan Nano
small_plan = record {
  symbol = "BTC";
  side = pos 1;
  qty = dec 1 0;
  entry = entry_order;
  stop = some stop_order;
  take_profit = none;
  trailing = none;
  entry_style = "maker";
}

-- Two literals that differ.
pub differ : (a b : String) → str_eq a b ≡ false → a ≢ b
differ a b h e = ground (arith, eq_iff a b)
