-- ===== src/Risk/Breakers.antt =====
-- src/risk/breakers.py: the circuit breakers, which halt new entries.
-- The verdict's text is a value of `BreakerReason`, with the numbers that the text shows. The kill
-- switch enters as the answer of its `engaged()`, false where there is none.
pub mod Clear
pub mod Scope
use crypto_bot_quant.Base.{
  Bool, true, false, not, String, Option, none, some, ◌&&◌, ◌||◌, if◌then◌else◌,
}
use crypto_bot_quant.Base.Int.{ℤ, leb_ℤ}
use crypto_bot_quant.Base.Result.{Result, ok, raised}
use crypto_bot_quant.Base.Flow.{Flow, return_if, call, return, next, run, ◌>>=◌, ◌>>◌}
use crypto_bot_quant.Base.Dict.{Dict, get_or}
use crypto_bot_quant.Base.Float.{Float, ◌-◌, ◌*◌, lt, le, gt, ge, div, max, nought}
use crypto_bot_quant.Risk.Config.{RiskConfig}

pub record BreakerInputs (W : Type 0) : Type 0 where
  pub equity : W
  pub peak_equity : W
  pub daily_pnl : W
  pub consecutive_losses : ℤ
  pub abnormal_slippage_active : Bool
  pub reconciled : Bool
  pub weekly_pnl : W
  pub cumulative_funding_paid : W
  pub per_symbol_pnl : Dict W

pub data BreakerReason (W : Type 0) : Type 0 where
  no_reason : BreakerReason W
  kill_switch_engaged : BreakerReason W
  reconciliation_mismatch : BreakerReason W
  daily_loss_limit : W → BreakerReason W
  max_drawdown_limit : W → BreakerReason W
  consecutive_loss_cooldown : ℤ → BreakerReason W
  weekly_loss_limit : W → BreakerReason W
  funding_breaker : W → BreakerReason W
  per_symbol_loss : String → W → BreakerReason W
  abnormal_slippage_cooldown : BreakerReason W

pub record BreakerVerdict (W : Type 0) : Type 0 where
  pub tripped : Bool
  pub reason : BreakerReason W
  pub symbol : Option String

abbrev pub trip : {W : Type 0} → BreakerReason W → BreakerVerdict W
trip r = record { tripped = true; reason = r; symbol = none }

abbrev pub untripped : {W : Type 0} → BreakerVerdict W
untripped = record { tripped = false; reason = no_reason; symbol = none }

module _ {W : Type 0} ⦃f : Float W⦄ where
  -- A loss as a fraction of equity: the daily, the weekly and the per-symbol form of the code.
  unfoldable pub loss_frac : W → W → Result W
  loss_frac pnl equity = if lt pnl nought then div (f.neg pnl) equity else ok nought

  -- `_daily_loss_frac`
  unfoldable pub daily_loss_frac : BreakerInputs W → Result W
  unfolding loss_frac
  daily_loss_frac inp =
      if le inp.equity nought then ok nought else loss_frac inp.daily_pnl inp.equity

  -- `_drawdown_frac`
  unfoldable pub drawdown_frac : BreakerInputs W → Result W
  drawdown_frac inp =
      if le inp.peak_equity nought
      then ok nought
      else elim (div (inp.peak_equity - inp.equity) inp.peak_equity) [
        | ok d ↦ ok (max nought d)
        | raised e ↦ raised e
      ]

  unfoldable pub weekly_loss_frac : BreakerInputs W → Result W
  weekly_loss_frac inp =
      if gt inp.equity nought && lt inp.weekly_pnl nought
      then div (f.neg inp.weekly_pnl) inp.equity
      else ok nought

  unfoldable pub funding_frac : BreakerInputs W → Result W
  funding_frac inp =
      if gt inp.equity nought then div inp.cumulative_funding_paid inp.equity else ok nought

  -- The per-symbol breaker: it judges the candidate's symbol only.
  unfoldable pub symbol_breaker :
      RiskConfig W → BreakerInputs W → Option String → Flow (BreakerVerdict W) (Unit {0})
  unfolding loss_frac
  symbol_breaker cfg inp none = next tt
  symbol_breaker cfg inp (some symbol) =
      if gt inp.equity nought
      then (do
        loss ← call (loss_frac (get_or symbol nought inp.per_symbol_pnl) inp.equity)
        return_if (ge loss cfg.breakers.per_symbol_loss_limit)
            (record { tripped = true; reason = per_symbol_loss symbol loss; symbol = some symbol }))
      else next tt

  -- The breakers over the whole book that come before the per-symbol one.
  unfoldable pub book_breakers :
      RiskConfig W → Bool → BreakerInputs W → Flow (BreakerVerdict W) (Unit {0})
  unfolding daily_loss_frac drawdown_frac weekly_loss_frac funding_frac
  book_breakers cfg killed inp = do
    return_if killed (trip kill_switch_engaged)
    return_if (cfg.breakers.require_reconciled && not inp.reconciled) (trip reconciliation_mismatch)
    dl ← call (daily_loss_frac inp)
    return_if (ge dl cfg.envelope.daily_loss_limit) (trip (daily_loss_limit dl))
    dd ← call (drawdown_frac inp)
    return_if (ge dd cfg.envelope.max_drawdown_limit) (trip (max_drawdown_limit dd))
    return_if (leb_ℤ cfg.breakers.consecutive_loss_limit inp.consecutive_losses)
        (trip (consecutive_loss_cooldown inp.consecutive_losses))
    wl ← call (weekly_loss_frac inp)
    return_if (ge wl cfg.breakers.weekly_loss_limit) (trip (weekly_loss_limit wl))
    fb ← call (funding_frac inp)
    return_if (ge fb cfg.breakers.funding_breaker_limit) (trip (funding_breaker fb))

  -- `CircuitBreakers.evaluate`
  unfoldable pub evaluate_flow :
      RiskConfig W
      → Bool
      → BreakerInputs W
      → Option String
      → Flow (BreakerVerdict W) (BreakerVerdict W)
  evaluate_flow cfg killed inp symbol = do
    book_breakers cfg killed inp
    symbol_breaker cfg inp symbol
    return_if (cfg.breakers.abnormal_slippage_cooldown && inp.abnormal_slippage_active)
        (trip abnormal_slippage_cooldown)
    next untripped

  unfoldable pub evaluate :
      RiskConfig W → Bool → BreakerInputs W → Option String → Result (BreakerVerdict W)
  unfolding evaluate_flow
  evaluate cfg killed inp symbol = run (evaluate_flow cfg killed inp symbol)

  unfoldable pub liquidation_distance_ok : RiskConfig W → W → W → ℤ → Result Bool
  liquidation_distance_ok cfg entry_price liquidation_price side =
      if le entry_price nought || le liquidation_price nought
      then ok false
      else elim (div (f.abs (entry_price - liquidation_price)) entry_price) [
        | ok dist ↦ ok (ge dist cfg.breakers.min_liquidation_distance)
        | raised e ↦ raised e
      ]

  unfoldable pub margin_available : RiskConfig W → W → W → W → Bool
  margin_available cfg required_margin free_margin equity =
      if le equity nought || lt required_margin nought
      then false
      else let remaining = free_margin - required_margin in
        ge remaining (cfg.breakers.min_free_margin_frac * equity)
