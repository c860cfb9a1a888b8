-- ===== src/Tests/Entries.antt =====
-- The whole pipeline of the paper engine, run on one candidate.
use crypto_bot_quant.Base.{true, ◌≡◌, refl, length}
use crypto_bot_quant.Base.Dict.{lookup, insert, contains}
use crypto_bot_quant.Base.Nano.{Nano, nano_float}
use crypto_bot_quant.Base.Result.{Result}
use crypto_bot_quant.Exchange.Metadata.{number_field, qty_step_field, find_spec}
use crypto_bot_quant.Ranking.Candidate.{stop_price, tp_price}
use crypto_bot_quant.Ranking.Setup as Setup
use crypto_bot_quant.Risk.Config.{beta_to_btc}
use crypto_bot_quant.Risk.Portfolio.{heat, net_beta, exposures}
use crypto_bot_quant.Risk.Breakers as Breakers
use crypto_bot_quant.Risk.Manager.Defs.{round_step}
use crypto_bot_quant.Risk.Manager.Sizing.{base_size, leverage_cap, heat_cap, beta_cap, beta_cap_by}
use crypto_bot_quant.Risk.Manager.Decide as Manager
use crypto_bot_quant.Risk.State.{is_tripped, refresh}
use crypto_bot_quant.Execution.Ownership.{new_client_id, client_id_text, pad6, tags}
use crypto_bot_quant.Execution.Order.Build as Build
use crypto_bot_quant.Execution.Venue as Venue
use crypto_bot_quant.Execution.Venue.{SimulatedVenue}
use crypto_bot_quant.Execution.Engine as Engine
use crypto_bot_quant.Paper.Engine.{
  cumulative_funding_paid, abnormal_slippage_active, roll_loss_windows,
}
use crypto_bot_quant.Paper.Exits.{Trading}
use crypto_bot_quant.Paper.Input.{accepted}
use crypto_bot_quant.Paper.Entry as Entry
use crypto_bot_quant.Paper.Process as Process
use crypto_bot_quant.Tests.Paper.{paper_venue, pipeline, new_engine, new_session, entry, moment}

abbrev after_entry : Result (Unit {0}) × Trading Nano (SimulatedVenue Nano)
after_entry = Process.process_one paper_venue pipeline moment entry (new_engine, new_session)

entry_run :
    (length after_entry.1.1.trades ≡ 1)
    × (contains "BTC" after_entry.1.0.open_positions ≡ true)
    × (length after_entry.1.0.venue.open_orders ≡ 3)
unfolding Process.process_one Process.check_halt is_tripped refresh Process.loss_view
    roll_loss_windows Process.account_of cumulative_funding_paid abnormal_slippage_active
    Process.assess Process.judge Process.enter Process.answered Process.conclude Setup.score
    Setup.components Setup.hard_blockers Setup.state_blockers Setup.clamp01 Setup.taker_fee
    Setup.round_trip_cost_frac Setup.expected_value_after_costs Setup.ev_ratio Setup.headroom
    Setup.reward_risk Manager.evaluate Manager.evaluate_flow Manager.admit Breakers.evaluate
    Breakers.evaluate_flow Breakers.book_breakers Breakers.symbol_breaker Breakers.daily_loss_frac
    Breakers.drawdown_frac Breakers.weekly_loss_frac Breakers.funding_frac Breakers.loss_frac
    base_size leverage_cap heat_cap heat beta_cap beta_cap_by beta_to_btc net_beta exposures
    Manager.quantise qty_step_field number_field round_step Manager.confirm
    Manager.check_liquidation Manager.check_margin Engine.execute Engine.place_plan Engine.outcome
    Engine.prepare Engine.revalidate Engine.conclude find_spec Build.build Build.build_flow
    Build.entry_price Build.resolve_style Build.round_to_tick Build.assemble new_client_id
    client_id_text pad6 tags stop_price tp_price Build.build_trailing Build.build_take_profit
    Venue.place_bracket Venue.make_fill Venue.make_position Venue.filled_qty Venue.actual_price
    Venue.fee Venue.open_position Venue.rest_entry Entry.book_entry Entry.resolve Entry.exit_costs
    Entry.make_trade Entry.mirror Entry.open_mirrors Entry.classify_exit accepted lookup insert
entry_run = (refl, refl, refl)
