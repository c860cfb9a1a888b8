-- ===== src/Tests/Losing.antt =====
-- A loss of the day that halts the paper engine, at concrete inputs.
use crypto_bot_quant.Base.{false, none, some, [], ◌∷◌, ◌≡◌, refl}
use crypto_bot_quant.Base.Result.{Result, ok, raised}
use crypto_bot_quant.Base.Dict.{lookup}
use crypto_bot_quant.Base.Nano.{Nano, nano_float, dec}
use crypto_bot_quant.Risk.Breakers.{BreakerReason}
use crypto_bot_quant.Risk.State.{RiskStateStore, is_tripped, refresh, trip}
use crypto_bot_quant.Risk.Breakers.{daily_loss_limit, book_breakers, daily_loss_frac, loss_frac}
use crypto_bot_quant.Risk.Breakers
use crypto_bot_quant.Risk.Manager.Defs.{AccountState, refuse, block, breaker}
use crypto_bot_quant.Risk.Manager.Decide as Manager
use crypto_bot_quant.Exchange.Metadata.{find_spec}
use crypto_bot_quant.Ranking.Setup.{
  SetupScore, default_context, clamp01, taker_fee, round_trip_cost_frac, expected_value_after_costs,
  ev_ratio, headroom, reward_risk, state_blockers, hard_blockers, components, score,
}
use crypto_bot_quant.Execution.Venue.{SimulatedVenue}
use crypto_bot_quant.Paper.Engine.{
  PaperTradingEngine, roll_loss_windows, cumulative_funding_paid, abnormal_slippage_active,
  floor_div,
}
use crypto_bot_quant.Paper.Input.{PaperCandidateInput}
use crypto_bot_quant.Paper.Process.{
  check_halt, loss_view, account_of, latch, judge, assess, process_one, process_candidates,
}
use crypto_bot_quant.Paper.Process.Halting.{IsRefused, IsLossBlocked, loss_block_binds}
use crypto_bot_quant.Tests.Samples.{policy, long_btc, differ}
use crypto_bot_quant.Tests.Books.{reviewed_metadata}
use crypto_bot_quant.Tests.Ranked.{ranking_config}
use crypto_bot_quant.Tests.Paper.{
  paper_venue, pipeline, empty_store, new_engine, new_session, entry, moment,
}

-- A loss of 500 on an equity of 10000 since midnight.
abbrev losing : PaperCandidateInput Nano
losing = record entry { daily_pnl = nano_float.neg (dec 500 0) }

abbrev viewed_engine : PaperTradingEngine Nano (SimulatedVenue Nano)
viewed_engine = (loss_view moment losing (check_halt new_engine).1).1

abbrev losses : Nano × Nano × Nano × Nano
losses = (dec 10000 0, dec 10000 0, nano_float.neg (dec 500 0), dec 0 0)

abbrev losing_account : AccountState Nano
losing_account = account_of policy.max_slippage_frac losing losses viewed_engine

losses_run : loss_view moment losing (check_halt new_engine).1 ≡ (ok losses, viewed_engine)
unfolding loss_view check_halt roll_loss_windows floor_div
losses_run = refl

unhalted_run : (check_halt new_engine).0 ≡ false
unfolding check_halt is_tripped refresh lookup
unhalted_run = refl

viewed_run : viewed_engine.state_store ≡ some (refresh empty_store)
unfolding loss_view check_halt roll_loss_windows
viewed_run = refl

abbrev setup_of : Result (SetupScore Nano) → SetupScore Nano
setup_of (ok x) = x
setup_of (raised x) = record {
  total = dec 0 0;
  components = [];
  blockers = [];
  threshold = dec 0 0;
  expected_value_after_costs = dec 0 0;
  round_trip_cost_frac = dec 0 0;
}

losing-IsLossBlocked : IsLossBlocked paper_venue pipeline moment losing losing_account
unfolding score components hard_blockers state_blockers clamp01 taker_fee round_trip_cost_frac
    expected_value_after_costs ev_ratio headroom reward_risk find_spec lookup Manager.evaluate
    Manager.evaluate_flow Manager.admit Breakers.evaluate Breakers.evaluate_flow book_breakers
    daily_loss_frac loss_frac account_of cumulative_funding_paid abnormal_slippage_active loss_view
    check_halt roll_loss_windows
losing-IsLossBlocked = record {
  setup = setup_of (score ranking_config reviewed_metadata [] long_btc default_context);
  scored = refl;
  unblocked = refl;
  decision =
      refuse block (breaker (daily_loss_limit (dec 5 2)))
        (some (breaker (daily_loss_limit (dec 5 2))));
  judged = refl;
  refused = refl;
  blocking = refl;
  reason = daily_loss_limit (dec 5 2);
  loss = refl;
  worded = differ "daily_loss_limit(0.05)" "" refl;
}

abbrev blocked : PaperTradingEngine Nano (SimulatedVenue Nano)
blocked = (process_one paper_venue pipeline moment losing (new_engine, new_session)).1.0

abbrev saved_halt : RiskStateStore Nano
saved_halt = elim blocked.state_store [ none ↦ empty_store | some s ↦ s ]

blocked_run : blocked.state_store ≡ some saved_halt
unfolding process_one check_halt is_tripped loss_view assess judge latch trip score components
    hard_blockers state_blockers clamp01 taker_fee round_trip_cost_frac expected_value_after_costs
    ev_ratio headroom reward_risk find_spec lookup Manager.evaluate Manager.evaluate_flow
    Manager.admit Breakers.evaluate Breakers.evaluate_flow book_breakers daily_loss_frac loss_frac
    account_of cumulative_funding_paid abnormal_slippage_active roll_loss_windows
blocked_run = refl

abbrev restarted : PaperTradingEngine Nano (SimulatedVenue Nano)
restarted = record new_engine { state_store = some (record saved_halt { state = [] }) }

loss_block_binds_example :
    IsRefused 1
      (restarted, new_session)
      (process_candidates paper_venue pipeline none none
        ((moment, entry) ∷ [])
        (restarted, new_session))
loss_block_binds_example =
    loss_block_binds paper_venue pipeline moment losing new_engine viewed_engine restarted
      new_session new_session losses (refresh empty_store) saved_halt [] none none
      ((moment, entry) ∷ []) unhalted_run losses_run viewed_run refl losing-IsLossBlocked
      blocked_run refl
