-- ===== src/Brackets.antt =====
-- src/brackets.py: the stop, trailing-stop and take-profit decision that the backtest, the lake replay
-- and the paper engine share.
pub mod Exit
use crypto_bot_quant.Base.{Bool, true, false, Option, none, some, if◌then◌else◌, ◌&&◌, ◌||◌}
use crypto_bot_quant.Base.Int.{ℤ, is_pos}
use crypto_bot_quant.Base.Float.{Float, ◌+◌, ◌-◌, lt, le, gt, ge, nought, max, min}

pub data ExitReason : Type 0 where
  fixed_stop trailing_stop take_profit : ExitReason

module _ {W : Type 0} ⦃f : Float W⦄ where
  unfoldable pub effective_stop : ℤ → W → W → W → W
  effective_stop side stop peak trail_dist =
      if le trail_dist nought || le stop nought
      then stop
      else if is_pos side
      then max stop (peak - trail_dist)
      else min stop (peak + trail_dist)

  -- `(reason, exit_level)`, and `(None, 0.0)` if the bar survives.
  unfoldable pub resolve_bracket_exit : ℤ → W → W → W → W → W → W → Option ExitReason × W
  resolve_bracket_exit side high low stop tp peak trail_dist =
      let eff = effective_stop side stop peak trail_dist in
      if is_pos side
      then if gt eff nought && le low eff
        then (some (if gt eff stop then trailing_stop else fixed_stop), eff)
        else if gt tp nought && ge high tp
        then (some take_profit, tp)
        else (none, nought)
      else if gt eff nought && ge high eff
      then (some (if lt eff stop then trailing_stop else fixed_stop), eff)
      else if gt tp nought && le low tp
      then (some take_profit, tp)
      else (none, nought)
