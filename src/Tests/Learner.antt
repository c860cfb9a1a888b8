-- ===== src/Tests/Learner.antt =====
-- The learner's guards and its rollback at concrete inputs.
use Prim.Native.Nat.{suc}
use crypto_bot_quant.Base.{
  ℕ, Bool, true, false, String, Option, none, some, List, [], ◌∷◌, ◌≡◌, refl, subst, ◌||◌, str_eq,
  sorted, if◌then◌else◌,
}
use crypto_bot_quant.Base.Int.{pos}
use crypto_bot_quant.Base.Result.{Result, ok, raised, os_error}
use crypto_bot_quant.Base.Dict.{Dict, lookup}
use crypto_bot_quant.Base.Value.{Value, float}
use crypto_bot_quant.Base.Float.{le}
use crypto_bot_quant.Base.Nano.{Nano, nano_float, dec, Nano-IsOrdered}
use crypto_bot_quant.Adaptation.ActionSpace.{
  BoundedAction, ActionBounds, validate, check_style, drop_strategies, restrict, clamp_weights,
  clamp_nudges, choose_bucket, cap_bucket, check_weights, check_nudges, zone_lo, zone_hi,
}
use crypto_bot_quant.Adaptation.ActionSpace.Clamping.{AreRanges}
use crypto_bot_quant.Adaptation.EnvelopeGuard.{
  load_envelope, cap_size, bad_strategies, check, enforce,
}
use crypto_bot_quant.Adaptation.Policy.{Context, Policy}
use crypto_bot_quant.Adaptation.Controller.{
  LearnerController, live_bounded, frozen, ControllerDecision, run, judge, after_validation,
  after_guard, conclude, effective_policy, is_no_trade_regime, after_underscore,
}
use crypto_bot_quant.Adaptation.Controller.Applied.{IsSafe, run_applied-IsSafe}
use crypto_bot_quant.Adaptation.Rollback.{RollbackGuard}
use crypto_bot_quant.Adaptation.Rollback as Rollback
use crypto_bot_quant.Adaptation.Rollback.Reverting.{
  is_due, check_freezes_exactly, started, frozen_is_final,
}

abbrev zone : Dict Nano
zone = ("lo", dec 5 1) ∷ ("hi", dec 15 1) ∷ []

abbrev bounds : ActionBounds Nano
bounds = record {
  w_min = dec 0 0;
  w_max = dec 2 0;
  size_buckets = dec 0 0 ∷ dec 25 2 ∷ dec 5 1 ∷ dec 1 0 ∷ [];
  max_change_per_update = dec 10 2;
  max_change_rate = dec 25 2;
  registered_tunables = ("edge_mult", zone) ∷ [];
  allowed_strategies = "momentum" ∷ [];
}

-- A weight that is too large, and a nudge that is too small.
abbrev eager : BoundedAction Nano
eager = record {
  strategy_weights = ("momentum", dec 9 0) ∷ ("shelved", dec 1 0) ∷ [];
  size_bucket = dec 5 1;
  take = true;
  exec_style = "maker";
  param_nudges = ("edge_mult", dec 1 1) ∷ [];
  learner_id = "bandit";
  learner_version = "learner_0001";
  mode = "LIVE_BOUNDED";
  rationale = "";
  projected_outcome_r = none;
  win_probability = none;
}

abbrev tamed : BoundedAction Nano
tamed = record eager {
  strategy_weights = ("momentum", dec 2 0) ∷ [];
  param_nudges = ("edge_mult", dec 5 1) ∷ [];
}

abbrev Ranged : Option (Dict Nano) → Type 0
Ranged (some z) = le (zone_lo z) (zone_hi z) ≡ true
Ranged none = Unit

zone-Ranged :
    (b : Bool) (z : Dict Nano) → (if b then some zone else none) ≡ some z → Ranged (some z)
unfolding lookup
zone-Ranged true z h = subst Ranged h refl
zone-Ranged false z h = cc

bounds-AreRanges : AreRanges bounds
unfolding lookup
bounds-AreRanges = (refl, λ k z e. zone-Ranged (str_eq k "edge_mult") z e)

-- A learner that counts its decisions and always wants the same.
abbrev learner : Policy Nano ℕ String
learner = record {
  decide = λ ctx p. (suc p, ok eager);
  update = λ ctx a outcome p. (suc p, ok tt);
  snapshot = λ p. "counted";
  fresh = ok 0;
  load = λ blob p. ok p;
}

abbrev controller : LearnerController Nano ℕ
controller = record {
  policy = 7;
  bounds = bounds;
  mode = live_bounded;
  frozen_policy = none;
  fallback_snapshot_path = some "frozen_fallback.pkl";
  frozen_reason = "";
  decision_count = 0;
  has_frozen = false;
}

abbrev context : Context Nano
context = record {
  symbol = some "BTC";
  regime = some "R1_TREND_UP";
  signal_strength = dec 1 0;
  expected_edge_frac = dec 1 2;
  spread_bps = dec 1 0;
  slippage_est = dec 1 3;
  atr_pct = dec 1 2;
  funding_z = dec 0 0;
  strategy_id = some "momentum";
  config_version = "cfg_0001";
  extra = [];
}

abbrev no_trade : List String
no_trade = "R8_DATA_UNSAFE" ∷ "R7_TOXIC_EXECUTION" ∷ []

-- The section of the parsed file.
abbrev raw_envelope : Result (Dict (Value Nano))
raw_envelope = ok (
    ("max_leverage", float (dec 5 0))
    ∷ ("max_risk_pct_per_trade", float (dec 1 2))
    ∷ ("portfolio_heat_cap", float (dec 5 2))
    ∷ ("net_beta_btc_cap", float (dec 30 2))
    ∷ ("daily_loss_limit", float (dec 3 2))
    ∷ ("max_drawdown_limit", float (dec 10 2))
    ∷ [])

abbrev applied : ControllerDecision Nano
applied = record {
  action = some tamed;
  is_applied = true;
  clamped_fields = "strategy_weights" ∷ "param_nudges.edge_mult" ∷ [];
  is_rejected = false;
  rejection_reason = none;
  mode = "LIVE_BOUNDED";
}

live_run :
    (run learner (λ s. s) no_trade raw_envelope context (some ("momentum" ∷ [])) false controller).1
    ≡ ok applied
unfolding run effective_policy judge validate check_style choose_bucket cap_bucket check_weights
    drop_strategies restrict clamp_weights check_nudges clamp_nudges sorted lookup after_validation
    enforce load_envelope cap_size bad_strategies check after_guard conclude is_no_trade_regime
    after_underscore
live_run = refl

run_applied-IsSafe_example :
    IsSafe (λ s. s) no_trade context (some ("momentum" ∷ [])) false controller applied
run_applied-IsSafe_example =
    run_applied-IsSafe (λ s. s) no_trade learner raw_envelope context (some ("momentum" ∷ [])) false
      controller applied Nano-IsOrdered bounds-AreRanges live_run refl

-- The file of the fallback is missing.
abbrev unreadable : String → Result String
unreadable path = raised os_error

-- A guard whose log cannot be written, once the breaker has fired.
abbrev alarmed : RollbackGuard Nano
alarmed = record {
  rollback_window = pos 20;
  rollback_margin = dec 5 2;
  max_divergence = dec 20 2;
  alert_sink = some (ok tt);
  cancel_orders = some (ok (pos 2));
  log_writer = some (raised os_error);
  environment = "paper";
  decisions = [];
  events = [];
  regime_flag = false;
  breaker_flag = true;
  divergence_flag = false;
}

check_freezes_exactly_example :
    (Rollback.check learner unreadable (λ x. "") (λ x. "") alarmed controller).controller.has_frozen
    ≡ (controller.has_frozen || is_due alarmed)
check_freezes_exactly_example =
    check_freezes_exactly learner unreadable (λ x. "") (λ x. "") alarmed controller

abbrev stopped : LearnerController Nano ℕ
stopped = record controller {
  mode = frozen;
  frozen_reason = "manual";
  frozen_policy = some 3;
  has_frozen = true;
}

-- The decision of the fallback.
abbrev shadowed : ControllerDecision Nano
shadowed = record applied {
  action = some (record tamed { mode = "SHADOW" });
  is_applied = false;
  mode = "FROZEN";
}

run_frozen :
    (run learner (λ s. s) no_trade raw_envelope context (some ("momentum" ∷ [])) false stopped).1
    ≡ ok shadowed
unfolding run effective_policy judge validate check_style choose_bucket cap_bucket check_weights
    drop_strategies restrict clamp_weights check_nudges clamp_nudges sorted lookup after_validation
    enforce load_envelope cap_size bad_strategies check after_guard conclude is_no_trade_regime
    after_underscore
run_frozen = refl

frozen_is_final_example : (stopped.has_frozen ≡ true) × (shadowed.is_applied ≡ false)
frozen_is_final_example =
    frozen_is_final learner unreadable stopped stopped (λ s. s) no_trade raw_envelope context
      (some ("momentum" ∷ [])) false shadowed started refl run_frozen
