-- ===== src/Execution/Order/Build.antt =====
-- The order builder. The ownership policy is passed on, since every minted id uses up a number; a
-- minted id that is too long raises.
use crypto_bot_quant.Base.{
  Bool, true, false, not, String, Option, none, some, ◌&&◌, ◌||◌, if◌then◌else◌, str_eq,
}
use crypto_bot_quant.Base.Int.{is_pos}
use crypto_bot_quant.Base.Result.{Result, ok, raised}
use crypto_bot_quant.Base.Result as Result
use crypto_bot_quant.Base.Flow.{Flow, return_if, call, next, run, ◌>>=◌, ◌>>◌}
use crypto_bot_quant.Base.Dict.{Dict}
use crypto_bot_quant.Base.Float.{Float, ◌-◌, ◌*◌, lt, le, gt, ge, div, nought, one}
use crypto_bot_quant.Exchange.Metadata.{VerifiedSpec, number_field, qty_step_field}
use crypto_bot_quant.Ranking.Candidate.{Candidate, stop_price, tp_price}
use crypto_bot_quant.Risk.Manager.Defs.{RiskDecision, round_step}
use crypto_bot_quant.Execution.Config.{ExecutionPolicyConfig}
use crypto_bot_quant.Execution.Ownership.{OwnershipPolicy, new_client_id, tags}
use crypto_bot_quant.Execution.Order.Defs.{
  buy, sell, OrderType, market, post_only, stop_market, take_profit_market, trailing_stop, Role,
  Order, OrderPlan,
}

pub data BuildReason (W : Type 0) : Type 0 where
  risk_not_approved : BuildReason W
  qty_below_min notional_below_min : W → BuildReason W

-- `BuildResult(False, reason=r)` and `BuildResult(True, plan=p)`.
pub data BuildResult (W : Type 0) : Type 0 where
  failed : BuildReason W → BuildResult W
  built : OrderPlan W → BuildResult W

abbrev pub entry_type : String → OrderType
entry_type style = if str_eq style "taker" then market else post_only

abbrev pub is_market : OrderType → Bool
is_market market = true
is_market _ = false

module _ {W : Type 0} ⦃f : Float W⦄ where
  -- `_round_to_tick`
  unfoldable pub round_to_tick : W → W → Bool → Result W
  round_to_tick price tick side_up =
      if le tick nought
      then ok price
      else Result.◌>>=◌ (div price tick)
          (λ n. Result.map (λ rounded. rounded * tick) (if side_up then f.ceil n else f.floor n))

  abbrev pub no_fixed_tp_frac : W
  no_fixed_tp_frac = f.lit 5 1

  -- `entry_style or ("maker" if candidate.maker else self.cfg.default_entry_style)`
  unfoldable pub resolve_style : ExecutionPolicyConfig W → Candidate W → Option String → String
  resolve_style cfg c entry_style =
      let default = if c.maker then "maker" else cfg.default_entry_style in
      elim entry_style [ none ↦ default | some s ↦ if str_eq s "" then default else s ]

  -- The entry's price before the check of the notional.
  unfoldable pub entry_price : Candidate W → W → OrderType → Result W
  unfolding round_to_tick
  entry_price c tick type =
      if is_market type
      then round_to_tick c.entry_price tick (is_pos c.side)
      else round_to_tick (c.entry_price * (one - f.of_int c.side * c.limit_offset_frac)) tick
          (not (is_pos c.side))

  -- A leg that only closes the position.
  abbrev pub exit_leg :
      Candidate W
      → W
      → String
      → OrderType
      → Role
      → Option W
      → Option W
      → Option W
      → Dict String
      → Order W
  exit_leg c qty cid type role price stop_price trail_offset tags = record {
    client_id = cid;
    symbol = c.symbol;
    side = if is_pos c.side then sell else buy;
    qty = qty;
    order_type = type;
    role = role;
    price = price;
    stop_price = stop_price;
    trail_offset = trail_offset;
    is_reduce_only = true;
    tags = tags;
  }

  -- The trailing stop, if the candidate or the configuration has a trail, or nothing else takes the
  -- profit.
  unfoldable pub build_trailing :
      ExecutionPolicyConfig W
      → Candidate W
      → W
      → String
      → OwnershipPolicy
      → Result (Option (Order W) × OwnershipPolicy)
  build_trailing cfg c qty parent p =
      let trail_off = if gt c.trail_frac nought then c.trail_frac else cfg.trailing_offset_frac in
      if gt trail_off nought || ge c.tp_frac no_fixed_tp_frac
      then Result.map
          (λ minted. (
            some (
                exit_leg c qty minted.0 trailing_stop Role.trailing none none
                  (some (if gt trail_off nought then trail_off else c.stop_frac))
                  (tags p (some parent))),
            minted.1,
          ))
          (new_client_id "trail" p)
      else ok (none, p)

  -- The take-profit, if its target can be reached.
  unfoldable pub build_take_profit :
      ExecutionPolicyConfig W
      → Candidate W
      → W
      → W
      → String
      → OwnershipPolicy
      → Result (Option (Order W) × OwnershipPolicy)
  build_take_profit cfg c tick qty parent p =
      if not (ge c.tp_frac no_fixed_tp_frac) && cfg.attach_take_profit
      then Result.◌>>=◌ (round_to_tick (tp_price c) tick (is_pos c.side)) (λ price.
        Result.map
          (λ minted. (
            some (
                exit_leg c qty minted.0 take_profit_market Role.take_profit (some price)
                  (some price) none (tags p (some parent))),
            minted.1,
          ))
          (new_client_id "tp" p))
      else ok (none, p)

  -- The legs and the plan, once size and entry price are accepted.
  unfoldable pub assemble :
      ExecutionPolicyConfig W
      → OwnershipPolicy
      → Candidate W
      → W
      → W
      → String
      → W
      → Result (OrderPlan W × OwnershipPolicy)
  assemble cfg p c tick qty style price = Result.◌>>=◌ (new_client_id "entry" p) λ (entry_id, p1).
      Result.◌>>=◌ (round_to_tick (stop_price c) tick (not (is_pos c.side))) λ stop_at.
        Result.◌>>=◌ (new_client_id "stop" p1) λ (stop_id, p2).
          Result.◌>>=◌ (build_trailing cfg c qty entry_id p2) λ (trailing, p3).
            Result.◌>>=◌ (build_take_profit cfg c tick qty entry_id p3) λ (take_profit, p4). ok (
              record {
                symbol = c.symbol;
                side = c.side;
                qty = qty;
                entry = record {
                  client_id = entry_id;
                  symbol = c.symbol;
                  side = if is_pos c.side then buy else sell;
                  qty = qty;
                  order_type = entry_type style;
                  role = Role.entry;
                  price = if is_market (entry_type style) then none else some price;
                  stop_price = none;
                  trail_offset = none;
                  is_reduce_only = false;
                  tags = tags p none;
                };
                stop = some (
                    exit_leg c qty stop_id stop_market Role.stop none (some stop_at) none
                      (tags p (some entry_id)));
                take_profit = take_profit;
                trailing = trailing;
                entry_style = style;
              },
              p4,
            )

  -- `OrderBuilder.build`
  unfoldable pub build_flow :
      ExecutionPolicyConfig W
      → OwnershipPolicy
      → Candidate W
      → RiskDecision W
      → VerifiedSpec W
      → Option String
      → Flow (BuildResult W × OwnershipPolicy) (BuildResult W × OwnershipPolicy)
  build_flow cfg p c decision spec entry_style = do
    return_if (not decision.approved || le decision.qty nought) (failed risk_not_approved, p)
    tick ← call (number_field spec.fields "tick_size")
    qty_step ← call (qty_step_field spec.fields)
    min_order_size ← call (number_field spec.fields "min_order_size")
    min_notional ← call (number_field spec.fields "min_notional")
    qty ← call (round_step decision.qty qty_step)
    return_if (le qty nought || lt qty min_order_size) (failed (qty_below_min qty), p)
    let style = resolve_style cfg c entry_style
    price ← call (entry_price c tick (entry_type style))
    return_if (lt (price * qty) min_notional) (failed (notional_below_min (price * qty)), p)
    made ← call (assemble cfg p c tick qty style price)
    next (built made.0, made.1)

  unfoldable pub build :
      ExecutionPolicyConfig W
      → OwnershipPolicy
      → Candidate W
      → RiskDecision W
      → VerifiedSpec W
      → Option String
      → Result (BuildResult W × OwnershipPolicy)
  unfolding build_flow
  build cfg p c decision spec entry_style = run (build_flow cfg p c decision spec entry_style)
