-- ===== src/Tests/Paper.antt =====
-- The paper engine at concrete inputs, over the simulated venue.
use crypto_bot_quant.Base.{true, false, none, some, List, [], ◌∷◌, ◌≡◌, ◌⊎◌, refl, arith}
use crypto_bot_quant.Base.Int.{ℤ, pos}
use crypto_bot_quant.Base.Result.{Result, ok, raised, type_error}
use crypto_bot_quant.Base.Dict.{lookup}
use crypto_bot_quant.Base.Value.{Value, null, int, float}
use crypto_bot_quant.Base.Nano.{Nano, nano_float, dec}
use crypto_bot_quant.Risk.Portfolio.{Position}
use crypto_bot_quant.Risk.State.{RiskStateStore, missing}
use crypto_bot_quant.Execution.Venue.{SimulatedVenue, place_bracket, close_position}
use crypto_bot_quant.Paper.Session.{PaperSession}
use crypto_bot_quant.Paper.Engine.{
  PaperTradingEngine, persist_state, attach_state_store, calendar_windows,
}
use crypto_bot_quant.Paper.Engine.Restart.{restart_keeps_windows}
use crypto_bot_quant.Paper.Funding.{FundingEvent, charge_position}
use crypto_bot_quant.Paper.Funding.Once.{charged_once}
use crypto_bot_quant.Paper.Exits.{PaperVenue, drop_venue_position}
use crypto_bot_quant.Paper.Input.{PaperCandidateInput, Pipeline, Moment}
use crypto_bot_quant.Paper.Process.{process_one, process_candidates}
use crypto_bot_quant.Paper.Process.Authorised.{IsUntouched, IsAuthorised, process_one_guarded}
use crypto_bot_quant.Paper.Lockstep.{IsLockstep, mirrors}
use crypto_bot_quant.Paper.Lockstep.Running.{started, batch, run_keeps-Lockstep}
use crypto_bot_quant.Tests.Samples.{risk_config, policy, long_btc, ownership, venue}
use crypto_bot_quant.Tests.Books.{reviewed_metadata}
use crypto_bot_quant.Tests.Ranked.{ranking_config}

-- The simulated venue, which never raises.
abbrev pub paper_venue : PaperVenue Nano (SimulatedVenue Nano)
paper_venue = record {
  orders = record { place = λ plan t v. let (b, v') = place_bracket plan t v in (ok b, v') };
  close_position = λ symbol v. (close_position symbol v).1;
  drop_position = drop_venue_position;
}

abbrev pub pipeline : Pipeline Nano
pipeline = record {
  risk_cfg = risk_config;
  exec_cfg = policy;
  rank_cfg = ranking_config;
  meta = reviewed_metadata;
  no_trade = [];
  text_of = λ r. "daily_loss_limit(0.05)";
}

abbrev pub empty_store : RiskStateStore Nano
empty_store = record { state = []; file = missing }

abbrev pub new_engine : PaperTradingEngine Nano (SimulatedVenue Nano)
new_engine = record {
  open_positions = [];
  position_meta = [];
  exit_levels = [];
  position_funding = [];
  funding_watermark = [];
  trail_dist = [];
  peak = [];
  realized_pnl = dec 0 0;
  per_symbol_pnl = [];
  sim_peak_equity = dec 0 0;
  day_key = none;
  week_key = none;
  day_start_realized = dec 0 0;
  week_start_realized = dec 0 0;
  free_margin = none;
  account_equity = none;
  session_start_equity = none;
  peak_equity = dec 0 0;
  rv_day_key = null;
  rv_week_key = null;
  rv_day_anchor = null;
  rv_week_anchor = null;
  consecutive_losses = pos 0;
  funding_paid_total = dec 0 0;
  week_start_funding = dec 0 0;
  recent_slippage = [];
  bar_interval_ms = pos 60000;
  state_store = some empty_store;
  venue = venue;
  ownership = ownership;
}

abbrev pub new_session : PaperSession Nano
new_session = record {
  trades = [];
  rejected = [];
  decision_logs = [];
  initial_equity = dec 10000 0;
  kill_switch_events = [];
  reconciliation_events = [];
  kill_switch_exercised = false;
  foreign_order_halt_triggered = false;
}

abbrev pub entry : PaperCandidateInput Nano
entry = record {
  candidate = long_btc;
  equity = dec 10000 0;
  daily_pnl = dec 0 0;
  open_risk = dec 0 0;
  peak_equity = dec 0 0;
  consecutive_losses = pos 0;
  inject_foreign_order = false;
  exit_move_frac = dec 0 0;
  hold_bars = pos 10;
  exit_reason = none;
  funding_frac = dec 0 0;
}

abbrev pub moment : Moment
moment = record {
  killed = false;
  killed_at_risk = false;
  killed_at_execution = false;
  wrote_anchors = true;
  wrote_halt = true;
  wrote_result = true;
  clock_ts = pos 1700000060000;
  now_ts = pos 1700000060000;
  trade_id = "t1";
}

process_one_guarded_example :
    IsUntouched
      (new_engine, new_session)
      (process_one paper_venue pipeline moment entry (new_engine, new_session)).1
    ⊎ IsAuthorised paper_venue pipeline moment entry new_engine
process_one_guarded_example =
    process_one_guarded paper_venue pipeline moment entry (new_engine, new_session)

-- Two hourly events, charged at two bars.
abbrev events : List (FundingEvent Nano)
events =
    record { ts = pos 3600; funding_rate = dec 1 4 }
    ∷ record { ts = pos 7200; funding_rate = dec 2 4 }
    ∷ []

abbrev long_position : Position Nano
long_position = record {
  symbol = "BTC";
  side = pos 1;
  qty = dec 10 0;
  entry_price = dec 100 0;
  risk_amount = dec 20 0;
  beta_to_btc = dec 1 0;
  regime = "R1";
}

charged_once_example :
    charge_position
      (dec 1 0)
      (pos 9000)
      "BTC"
      long_position
      events
      (charge_position (dec 1 0) (pos 5000) "BTC" long_position events new_engine)
    ≡ charge_position (dec 1 0) (pos 9000) "BTC" long_position events new_engine
charged_once_example =
    charged_once (dec 1 0) long_position "BTC" (pos 5000) (pos 9000) events new_engine
      ((omega arith, tt), (tt, tt)) (omega arith)

-- The morning's equity is on file; the afternoon starts anew.
abbrev morning : PaperTradingEngine Nano (SimulatedVenue Nano)
morning = record new_engine {
  rv_day_key = int (pos 19675);
  rv_week_key = int (pos 2810);
  rv_day_anchor = float (dec 10000 0);
  rv_week_anchor = float (dec 9900 0);
  consecutive_losses = pos 2;
}

abbrev saved_store : RiskStateStore Nano
saved_store = elim (persist_state true morning).state_store [ none ↦ empty_store | some s ↦ s ]

saved_run : (persist_state true morning).state_store ≡ some saved_store
unfolding persist_state
saved_run = refl

-- The builtin `int` on an integer.
abbrev to_int : Value Nano → Result ℤ
to_int (int n) = ok n
to_int v = raised type_error

restart_keeps_windows_example :
    (later : PaperTradingEngine Nano (SimulatedVenue Nano)) × (attach_state_store to_int
        (record saved_store { state = [] })
        new_engine
      ≡ ok later)
    × (later.consecutive_losses ≡ pos 2)
    × ((calendar_windows true (pos 1700000000000) (dec 9700 0) later).0
        ≡ (calendar_windows true (pos 1700000000000) (dec 9700 0) morning).0)
restart_keeps_windows_example =
    restart_keeps_windows to_int morning new_engine empty_store saved_store [] true true
      (pos 1700000000000) (dec 9700 0) (λ n. refl) refl saved_run

new_engine-IsLockstep : IsLockstep (mirrors new_engine)
unfolding lookup
new_engine-IsLockstep = record {
  unique = tt;
  meta = λ k. refl;
  levels = λ k. refl;
  funding = λ k. refl;
  watermark = λ k. refl;
  trail = λ k. refl;
  peak = λ k. refl;
}

run_keeps-Lockstep_example : IsLockstep (
    mirrors
      (process_candidates paper_venue pipeline none none
        ((moment, entry) ∷ [])
        (new_engine, new_session)).1.0)
run_keeps-Lockstep_example =
    run_keeps-Lockstep paper_venue pipeline (new_engine, new_session)
      (process_candidates paper_venue pipeline none none ((moment, entry) ∷ [])
        (new_engine, new_session)).1
      (batch none none ((moment, entry) ∷ []) started) new_engine-IsLockstep
