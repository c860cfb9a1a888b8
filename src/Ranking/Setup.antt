-- ===== src/Ranking/Setup.antt =====
-- src/ranking/setup_quality.py and config.py: the score of a candidate and its hard blockers. The
-- no-trade regimes, which a file declares, are an argument.
use crypto_bot_quant.Base.{
  Bool, false, not, String, Option, none, some, List, [], ◌∷◌, ◌||◌, ◌&&◌, map, if◌then◌else◌, elem,
  is_empty, is_some,
}
use crypto_bot_quant.Base.Result.{Result, ok, raised, key_error, ◌>>=◌}
use crypto_bot_quant.Base.Dict.{Dict, lookup, get_or}
use crypto_bot_quant.Base.Value.{number?}
use crypto_bot_quant.Base.Float.{Float, ◌+◌, ◌-◌, ◌*◌, lt, le, gt, ge, eq, div, nought, one}
use crypto_bot_quant.Exchange.Metadata.{MetadataConfig, find_spec}
use crypto_bot_quant.Ranking.Candidate.{Candidate}

pub record RankingConfig (W : Type 0) : Type 0 where
  pub ranking_version : String
  pub components : Dict W
  pub threshold : W
  pub rr_target : W
  pub max_spread_bps : W
  pub max_slippage_frac : W
  pub rank_by : List String

pub record SetupContext : Type 0 where
  pub daily_loss_reached : Bool
  pub drawdown_reached : Bool
  pub data_quality_failed : Bool
  pub foreign_order_detected : Bool
  pub open_position_conflict : Bool
  pub require_config_live_approved : Bool

-- `SetupContext()`
abbrev pub default_context : SetupContext
default_context = record {
  daily_loss_reached = false;
  drawdown_reached = false;
  data_quality_failed = false;
  foreign_order_detected = false;
  open_position_conflict = false;
  require_config_live_approved = false;
}

pub data Blocker : Type 0 where
  stale_data missing_metadata missing_fees no_trade_regime : Blocker
  spread_above_threshold slippage_above_threshold symbol_halted_or_inactive : Blocker
  strategy_disabled undefined_stop negative_ev_after_costs : Blocker
  daily_loss_limit_reached drawdown_limit_reached data_quality_failure : Blocker
  foreign_order open_position config_not_live_approved : Blocker

pub record SetupScore (W : Type 0) : Type 0 where
  pub total : W
  pub components : Dict W
  pub blockers : List Blocker
  pub threshold : W
  pub expected_value_after_costs : W
  pub round_trip_cost_frac : W

-- `if b: out.append(x)`, before the later checks
abbrev pub noted : Bool → Blocker → List Blocker → List Blocker
noted b x rest = if b then x ∷ rest else rest

-- `d[key]`
abbrev pub item : {W : Type 0} → String → Dict W → Result W
item key d = elim (lookup key d) [ none ↦ raised key_error | some x ↦ ok x ]

-- The blockers that the state of the account and of the data gives.
unfoldable pub state_blockers : {W : Type 0} → Candidate W → SetupContext → List Blocker
state_blockers c ctx = noted ctx.daily_loss_reached daily_loss_limit_reached (
    noted ctx.drawdown_reached drawdown_limit_reached (
      noted ctx.data_quality_failed data_quality_failure (
        noted ctx.foreign_order_detected foreign_order (
          noted ctx.open_position_conflict open_position (
            noted (ctx.require_config_live_approved && not c.config_live_approved)
              config_not_live_approved [])))))

module _ {W : Type 0} ⦃f : Float W⦄ where
  abbrev pub passed_threshold : SetupScore W → Bool
  passed_threshold s = ge s.total s.threshold

  abbrev pub approved : SetupScore W → Bool
  approved s = is_empty s.blockers && passed_threshold s

  -- `_clamp01`
  unfoldable pub clamp01 : W → W
  clamp01 x = if lt x nought then nought else if gt x one then one else x

  -- `_taker_fee`
  unfoldable pub taker_fee : MetadataConfig W → String → Option W
  taker_fee meta symbol = elim (find_spec meta symbol) [
    | none ↦ none
    | some spec ↦ elim (lookup "taker_fee" spec.fields) [ none ↦ none | some v ↦ number? v ]
  ]

  -- `fee or 0.0`
  abbrev pub fee_or_zero : Option W → W
  fee_or_zero none = nought
  fee_or_zero (some fee) = if eq fee nought then nought else fee

  unfoldable pub round_trip_cost_frac : MetadataConfig W → Candidate W → W
  round_trip_cost_frac meta c = f.lit 2 0 * fee_or_zero (taker_fee meta c.symbol) + c.slippage_est

  unfoldable pub expected_value_after_costs : MetadataConfig W → Candidate W → W
  expected_value_after_costs meta c = c.expected_edge_frac - round_trip_cost_frac meta c

  -- `expected_value / edge`, clamped, where there is an edge
  unfoldable pub ev_ratio : W → W → Result W
  ev_ratio ev edge = if gt edge nought then (div ev edge >>= λ r. ok (clamp01 r)) else ok nought

  -- The share of a cap that is left.
  unfoldable pub headroom : W → W → Result W
  headroom x cap = div x cap >>= λ r. ok (clamp01 (one - r))

  -- Reward over risk.
  unfoldable pub reward_risk : Candidate W → Result W
  reward_risk c = if gt c.stop_frac nought then div c.tp_frac c.stop_frac else ok nought

  -- `1.0 if float(f.get(key, 0.0)) >= 0.5 else 0.0`
  abbrev pub flagged : String → Candidate W → W
  flagged key c = if ge (get_or key nought c.features) (f.lit 5 1) then one else nought

module _ {W : Type 0} ⦃f : Float W⦄ (cfg : RankingConfig W) (meta : MetadataConfig W)
    (no_trade : List String) where
  unfoldable pub hard_blockers : Candidate W → SetupContext → List Blocker
  hard_blockers c ctx = noted (not c.data_fresh) stale_data (
      noted (not c.metadata_verified || not (is_some (find_spec meta c.symbol))) missing_metadata (
        noted (not (is_some (taker_fee meta c.symbol))) missing_fees (
          noted (elem c.regime no_trade) no_trade_regime (
            noted (gt c.spread_bps cfg.max_spread_bps) spread_above_threshold (
              noted (gt c.slippage_est cfg.max_slippage_frac) slippage_above_threshold (
                noted (not c.symbol_tradable) symbol_halted_or_inactive (
                  noted (not c.strategy_enabled) strategy_disabled (
                    noted (le c.stop_frac nought) undefined_stop (
                      noted (le (expected_value_after_costs meta c) nought) negative_ev_after_costs
                        (state_blockers c ctx))))))))))

  -- The seven component scores.
  unfoldable pub components : Candidate W → Result (Dict W)
  components c = do
    regime_max ← item "regime_alignment" cfg.components
    let atr_rank = clamp01 (get_or "atr_pct_rank" (f.lit 5 1) c.features)
    let regime_alignment = regime_max * clamp01 (one - f.lit 5 1 * atr_rank)
    signal_max ← item "signal_strength" cfg.components
    let signal_strength = signal_max * clamp01 c.signal_strength
    confirmation_max ← item "cross_signal_confirmation" cfg.components
    let cross_conf = confirmation_max * clamp01 c.confirmation
    let ev = expected_value_after_costs meta c
    ratio ← ev_ratio ev c.expected_edge_frac
    move_max ← item "expected_move_after_costs" cfg.components
    let expected_move = move_max * ratio
    spread_factor ← headroom c.spread_bps cfg.max_spread_bps
    slip_factor ← headroom c.slippage_est cfg.max_slippage_frac
    execution_max ← item "execution_quality" cfg.components
    let exec_quality = execution_max * (f.lit 5 1 * spread_factor + f.lit 5 1 * slip_factor)
    rr ← reward_risk c
    reward_max ← item "risk_reward_quality" cfg.components
    rr_share ← div rr cfg.rr_target
    let rr_quality = reward_max * clamp01 rr_share
    let penalty = f.lit 3 1 * flagged "is_weekend" c
    let session_factor = clamp01 (one - penalty - f.lit 3 1 * flagged "pre_funding" c)
    session_max ← item "session_context" cfg.components
    let session_ctx = session_max * session_factor
    ok (
        ("regime_alignment", regime_alignment)
        ∷ ("signal_strength", signal_strength)
        ∷ ("cross_signal_confirmation", cross_conf)
        ∷ ("expected_move_after_costs", expected_move)
        ∷ ("execution_quality", exec_quality)
        ∷ ("risk_reward_quality", rr_quality)
        ∷ ("session_context", session_ctx)
        ∷ [])

  unfoldable pub score : Candidate W → SetupContext → Result (SetupScore W)
  score c ctx = do
    parts ← components c
    ok record {
      total = f.sum (map (λ p. p.1) parts);
      components = parts;
      blockers = hard_blockers c ctx;
      threshold = cfg.threshold;
      expected_value_after_costs = expected_value_after_costs meta c;
      round_trip_cost_frac = round_trip_cost_frac meta c;
    }
