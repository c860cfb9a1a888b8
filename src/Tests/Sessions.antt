-- ===== src/Tests/Sessions.antt =====
-- The readiness of a session at a concrete input.
use crypto_bot_quant.Base.{◌≡◌, refl, false, none, some, [], ◌∷◌, sorted}
use crypto_bot_quant.Base.Result.{ok}
use crypto_bot_quant.Base.Dict.{lookup}
use crypto_bot_quant.Base.Nano.{Nano, nano_float, Nano-IsOrdered}
use crypto_bot_quant.Exchange.Metadata.{find_spec}
use crypto_bot_quant.Exchange.Tradable.{
  tradable_blocker, spec_blocker, missing_fields, is_blank, contradictions, checks,
  size_contradiction, is_positive, is_bad_leverage, is_negative, is_less, is_bad_interval,
  is_bad_status, is_bad_order_types,
}
use crypto_bot_quant.Execution.Ownership.{configured}
use crypto_bot_quant.Execution.Reconciliation.{reconcile_startup, keys_where}
use crypto_bot_quant.KillSwitch.{
  KillSwitch, engaged, fresh, either_backend, redis, redis_has_key, new_switch,
}
use crypto_bot_quant.Live.DemoGuard.{
  DemoReadinessGuard, DemoReadinessReport, pass, check_of, evaluate, report, worst,
  check_environment, check_ownership_prefix, check_risk_caps, check_metadata, blocked_symbols,
  active_symbols, check_tp_sl_capability, check_strategy_eligibility, check_reconciliation,
}
use crypto_bot_quant.Live.DemoGuard.Readiness.{IsReady, evaluate_passes-IsReady}
use crypto_bot_quant.Tests.Books.{reviewed_metadata}
use crypto_bot_quant.Tests.Halts.{offline}
use crypto_bot_quant.Tests.Samples.{ownership, risk_config, venue}

abbrev demo : DemoReadinessGuard Nano
demo = record {
  environment = "demo";
  exchange_id = "bybit";
  ownership = ownership;
  risk = risk_config;
  metadata = record reviewed_metadata {
    supported_order_types = "stop_market" ∷ "take_profit_market" ∷ [];
  };
  symbols = some ("BTC" ∷ []);
  session_symbols = none;
  default_symbols = ok [];
  basket_candidate_id = none;
  candidate = λ id. none;
  active_strategies = "trend" ∷ [];
  reference_only = [];
  book = some record { venue = venue; orders = []; positions = [] };
}

abbrev released : KillSwitch Nano
released = new_switch none

abbrev ready : DemoReadinessReport
ready = record {
  verdict = pass;
  environment = "demo";
  checks =
      check_of "environment" pass
      ∷ check_of "kill_switch" pass
      ∷ check_of "order_ownership" pass
      ∷ check_of "risk_caps" pass
      ∷ check_of "exchange_metadata" pass
      ∷ check_of "tp_sl_capability" pass
      ∷ check_of "strategy_eligibility" pass
      ∷ check_of "reconciliation" pass
      ∷ [];
}

ready_run : (evaluate offline demo released 0).0 ≡ ok ready
unfolding evaluate report worst check_environment check_ownership_prefix check_risk_caps
    check_metadata blocked_symbols active_symbols check_tp_sl_capability check_strategy_eligibility
    check_reconciliation reconcile_startup keys_where configured engaged fresh either_backend redis
    redis_has_key tradable_blocker find_spec spec_blocker missing_fields is_blank contradictions
    checks size_contradiction is_positive is_bad_leverage is_negative is_less is_bad_interval
    is_bad_status is_bad_order_types lookup sorted
ready_run = refl

evaluate_passes-IsReady_example : ((engaged offline released 0).0 ≡ false) × IsReady demo
evaluate_passes-IsReady_example =
    evaluate_passes-IsReady offline demo released 0 ready Nano-IsOrdered refl ready_run refl
