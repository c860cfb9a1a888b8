-- ===== src/Risk/Manager/Decide.antt =====
-- The decision: who may enter at all, and what becomes of the capped size.
use crypto_bot_quant.Base.{
  Bool, true, false, not, String, Option, none, some, [], ◌∷◌, ◌++◌, ◌||◌, if◌then◌else◌,
}
use crypto_bot_quant.Base.Int.{pos, leb_ℤ}
use crypto_bot_quant.Base.Result.{Result}
use crypto_bot_quant.Base.Flow.{Flow, return_if, call, next, run, ◌>>=◌, ◌>>◌}
use crypto_bot_quant.Base.Dict.{Dict}
use crypto_bot_quant.Base.Value.{Value}
use crypto_bot_quant.Base.Float.{Float, ◌+◌, ◌*◌, lt, le, gt, div, nought}
use crypto_bot_quant.Exchange.Metadata.{MetadataConfig, find_spec, number_field, qty_step_field}
use crypto_bot_quant.Ranking.Candidate.{Candidate}
use crypto_bot_quant.Risk.Config.{RiskConfig, beta_to_btc}
use crypto_bot_quant.Risk.Breakers as Breakers
use crypto_bot_quant.Risk.Breakers.{BreakerVerdict}
use crypto_bot_quant.Risk.Portfolio.{count, count_for_symbol, count_for_regime, net_beta}
use crypto_bot_quant.Risk.Manager.Defs.{
  AccountState, Action, approve, resize, reject, block, RiskDecision, Sizing, refuse, round_step,
  breaker, unknown_order_conflict, non_positive_equity, invalid_stop_or_price,
  open_position_conflict, max_concurrent_total, max_concurrent_per_regime, below_min_order_size,
  below_min_notional, net_beta_cap_breach, leverage_exceeds_envelope, liquidation_too_close,
  insufficient_free_margin, risk_pct_exceeds_envelope, within_all_limits,
}
use crypto_bot_quant.Risk.Manager.Sizing.{base_size, leverage_cap, heat_cap, beta_cap}

abbrev is_approve : Action → Bool
is_approve approve = true
is_approve resize = false
is_approve reject = false
is_approve block = false

-- A breaker on one symbol rejects the candidate, any other blocks all entries.
abbrev pub breaker_action : Option String → Action
breaker_action none = block
breaker_action (some s) = reject

module _ {W : Type 0} ⦃f : Float W⦄ where
  abbrev pub breaker_refusal : BreakerVerdict W → RiskDecision W
  breaker_refusal v = refuse (breaker_action v.symbol) (breaker v.reason) (some (breaker v.reason))

  -- Steps 0 to 2. `killed` is the answer of the kill switch.
  unfoldable pub admit :
      RiskConfig W → Bool → Candidate W → AccountState W → Flow (RiskDecision W) (Unit {0})
  admit cfg killed c state = do
    verdict ← call (Breakers.evaluate cfg killed state.breakers (some c.symbol))
    return_if verdict.tripped (breaker_refusal verdict)
    return_if state.unknown_order_present
        (refuse block unknown_order_conflict (some unknown_order_conflict))
    return_if (le state.portfolio.equity nought) (refuse reject non_positive_equity none)
    return_if (le c.stop_frac nought || le c.entry_price nought)
        (refuse reject invalid_stop_or_price none)
    return_if
        (leb_ℤ cfg.max_concurrent_per_symbol (pos (count_for_symbol state.portfolio c.symbol)))
        (refuse reject open_position_conflict none)
    return_if (leb_ℤ cfg.max_concurrent_total (pos (count state.portfolio)))
        (refuse reject max_concurrent_total none)
    return_if
        (leb_ℤ cfg.max_concurrent_per_regime (pos (count_for_regime state.portfolio c.regime)))
        (refuse reject max_concurrent_per_regime none)

  -- Step 4a, which is not evaluated where no liquidation price is known.
  unfoldable pub check_liquidation :
      RiskConfig W → Candidate W → Option W → Flow (RiskDecision W) (Unit {0})
  check_liquidation cfg c none = next tt
  check_liquidation cfg c (some p) = do
    far ← call (Breakers.liquidation_distance_ok cfg c.entry_price p c.side)
    return_if (not far) (refuse reject liquidation_too_close none)

  -- Step 4b, which is not evaluated where the free margin is not known.
  unfoldable pub check_margin : RiskConfig W → W → W → Option W → Flow (RiskDecision W) (Unit {0})
  check_margin cfg notional equity none = next tt
  check_margin cfg notional equity (some free) = do
    required_margin ← call (div notional cfg.envelope.max_leverage)
    return_if (not (Breakers.margin_available cfg required_margin free equity))
        (refuse reject insufficient_free_margin none)

  -- Step 4, once the size is final: the last assertions, and the approval.
  unfoldable pub confirm :
      RiskConfig W
      → Candidate W
      → AccountState W
      → Sizing W
      → W
      → Flow (RiskDecision W) (RiskDecision W)
  confirm cfg c state s qty = do
    let equity = state.portfolio.equity
    let notional = qty * c.entry_price
    let risk_amount = qty * (c.entry_price * c.stop_frac)
    net ← call (net_beta state.portfolio)
    added ← call (div (f.of_int c.side * beta_to_btc cfg c.symbol * notional) equity)
    return_if (gt (f.abs (net + added)) (cfg.envelope.net_beta_btc_cap + f.lit 1 9))
        (refuse reject net_beta_cap_breach none)
    leverage ← call (div notional equity)
    return_if (gt leverage (cfg.envelope.max_leverage + f.lit 1 9))
        (refuse reject leverage_exceeds_envelope none)
    check_liquidation cfg c state.liquidation_price
    check_margin cfg notional equity state.free_margin
    risk_pct_used ← call (div risk_amount equity)
    return_if (gt risk_pct_used (cfg.envelope.max_risk_pct_per_trade + f.lit 1 9))
        (refuse reject risk_pct_exceeds_envelope none)
    next (record {
      approved = true;
      action = s.action;
      qty = qty;
      notional = notional;
      leverage = leverage;
      risk_amount = risk_amount;
      risk_pct_used = risk_pct_used;
      reasons = if is_approve s.action then s.reasons ++ within_all_limits ∷ [] else s.reasons;
      blocker = none;
    })

  -- Steps 3d and 3e: the size in steps of the lot, which must reach the minima of the symbol.
  unfoldable pub quantise : MetadataConfig W → Candidate W → Sizing W → Flow (RiskDecision W) W
  quantise meta c s = do
    let fields : Dict (Value W) = elim (find_spec meta c.symbol) [
      | none ↦ []
      | some spec ↦ spec.fields
    ]
    qty_step ← call (qty_step_field fields)
    min_order_size ← call (number_field fields "min_order_size")
    min_notional ← call (number_field fields "min_notional")
    qty ← call (round_step s.qty qty_step)
    return_if (le qty nought || lt qty min_order_size)
        (refuse reject (below_min_order_size qty) none)
    return_if (lt (qty * c.entry_price) min_notional)
        (refuse reject (below_min_notional (qty * c.entry_price)) none)
    next qty

  -- `RiskManager.evaluate`
  unfoldable pub evaluate_flow :
      RiskConfig W
      → MetadataConfig W
      → Bool
      → Candidate W
      → AccountState W
      → Flow (RiskDecision W) (RiskDecision W)
  evaluate_flow cfg meta killed c state = do
    admit cfg killed c state
    sized ← call (base_size cfg c state.portfolio.equity)
    levered ← call (leverage_cap cfg c state.portfolio.equity sized)
    heated ← heat_cap cfg c state.portfolio levered
    hedged ← beta_cap cfg c state.portfolio heated
    qty ← quantise meta c hedged
    confirm cfg c state hedged qty

  unfoldable pub evaluate :
      RiskConfig W
      → MetadataConfig W
      → Bool
      → Candidate W
      → AccountState W
      → Result (RiskDecision W)
  unfolding evaluate_flow
  evaluate cfg meta killed c state = run (evaluate_flow cfg meta killed c state)
