-- ===== src/Tests/Risk.antt =====
-- The risk manager, the breakers and the envelope at concrete inputs.
use crypto_bot_quant.Base.{true, false, none, some, [], ◌∷◌, ◌≡◌, ◌↔◌, refl, arith}
use crypto_bot_quant.Base.Result.{ok, raises}
use crypto_bot_quant.Base.Dict.{Dict, lookup}
use crypto_bot_quant.Base.Value.{Value, float}
use crypto_bot_quant.Base.Float.{lt, le}
use crypto_bot_quant.Base.Nano.{Nano, nano_float, dec, Nano-IsOrdered}
use crypto_bot_quant.Exchange.Metadata.{find_spec, number_field, qty_step_field}
use crypto_bot_quant.Risk.Config.{beta_to_btc}
use crypto_bot_quant.Risk.Breakers.{
  daily_loss_frac, drawdown_frac, weekly_loss_frac, funding_frac, loss_frac, symbol_breaker,
  book_breakers, liquidation_distance_ok, margin_available, trip, per_symbol_loss,
  kill_switch_engaged, untripped,
}
use crypto_bot_quant.Risk.Breakers
use crypto_bot_quant.Risk.Breakers.Clear.{IsClear, evaluate-IsClear_iff, evaluate_total}
use crypto_bot_quant.Risk.Portfolio.{heat, net_beta, exposures}
use crypto_bot_quant.Risk.Manager.Defs.{round_step}
use crypto_bot_quant.Risk.Envelope.{
  daily_loss_limit, from_config, raw_field, get, from_config_passes_nan,
}
use crypto_bot_quant.Risk.Manager.Sizing.{base_size, leverage_cap, heat_cap, beta_cap, beta_cap_by}
use crypto_bot_quant.Risk.Manager.Decide.{
  admit, check_liquidation, check_margin, confirm, quantise, evaluate_flow, evaluate,
}
use crypto_bot_quant.Risk.Manager.Limits.{IsWithinLimits, evaluate-IsWithinLimits}
use crypto_bot_quant.Risk.Manager.Caps.{IsCapped, evaluate-IsCapped}
use crypto_bot_quant.Tests.Samples.{risk_config, calm, account, long_btc, metadata, approved_25}

evaluate_run : evaluate risk_config metadata false long_btc account ≡ ok approved_25
unfolding evaluate evaluate_flow admit Breakers.evaluate Breakers.evaluate_flow book_breakers
    symbol_breaker daily_loss_frac drawdown_frac weekly_loss_frac funding_frac loss_frac base_size
    leverage_cap heat_cap heat beta_cap beta_cap_by beta_to_btc net_beta exposures quantise
    find_spec qty_step_field number_field round_step confirm check_liquidation
    liquidation_distance_ok check_margin margin_available lookup
evaluate_run = refl

evaluate-IsWithinLimits_example : IsWithinLimits risk_config metadata long_btc account approved_25
evaluate-IsWithinLimits_example =
    evaluate-IsWithinLimits risk_config metadata false long_btc account evaluate_run refl

evaluate-IsCapped_example : IsCapped risk_config metadata long_btc account.portfolio approved_25
evaluate-IsCapped_example =
    evaluate-IsCapped risk_config metadata false long_btc account Nano-IsOrdered evaluate_run refl

abbrev killed_verdict : Breakers.BreakerVerdict Nano
killed_verdict = trip kill_switch_engaged

killed_run : Breakers.evaluate risk_config true calm (some "BTC") ≡ ok killed_verdict
unfolding Breakers.evaluate Breakers.evaluate_flow book_breakers
killed_run = refl

evaluate-IsClear_iff_example :
    (Breakers.evaluate risk_config false calm (some "BTC") ≡ ok untripped)
    ↔ IsClear risk_config false calm (some "BTC")
evaluate-IsClear_iff_example = evaluate-IsClear_iff risk_config false calm (some "BTC")

evaluate_total_example : raises (Breakers.evaluate risk_config false calm (some "BTC")) ≡ false
evaluate_total_example = evaluate_total risk_config false calm (some "BTC") Nano-IsOrdered

-- Three hundred lost on the symbol, which is more than a fiftieth of the equity.
abbrev losing : Breakers.BreakerInputs Nano
losing = record calm { per_symbol_pnl = ("BTC", nano_float.neg (dec 300 0)) ∷ [] }

abbrev losing_verdict : Breakers.BreakerVerdict Nano
losing_verdict = record {
  tripped = true;
  reason = per_symbol_loss "BTC" (dec 3 2);
  symbol = some "BTC";
}

losing_run : Breakers.evaluate risk_config false losing losing_verdict.symbol ≡ ok losing_verdict
unfolding Breakers.evaluate Breakers.evaluate_flow book_breakers symbol_breaker daily_loss_frac
    drawdown_frac weekly_loss_frac funding_frac loss_frac lookup
losing_run = refl

abbrev with_nan : Dict (Value Nano)
with_nan = ("daily_loss_limit", float none) ∷ []

with_nan_field : raw_field with_nan daily_loss_limit ≡ float none
unfolding lookup
with_nan_field = refl

from_config_passes_nan_example :
    (get (from_config with_nan) daily_loss_limit ≡ none)
    × ((y : Nano) → (le none y ≡ false) × (lt none y ≡ false))
from_config_passes_nan_example =
    from_config_passes_nan with_nan daily_loss_limit none Nano-IsOrdered with_nan_field
      (λ e. ground arith)
