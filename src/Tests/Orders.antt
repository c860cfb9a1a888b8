-- ===== src/Tests/Orders.antt =====
-- The builder, the venue, the engine, reconciliation and exits at concrete inputs.
use crypto_bot_quant.Base.{true, false, String, Option, none, some, [], ◌∷◌, ◌≡◌, ◌⊎◌, refl}
use crypto_bot_quant.Base.Int.{pos}
use crypto_bot_quant.Base.Result.{ok}
use crypto_bot_quant.Base.Dict.{Dict, lookup, insert}
use crypto_bot_quant.Base.Float.{IsNumber}
use crypto_bot_quant.Base.Nano.{Nano, nano_float, dec, Nano-IsOrdered}
use crypto_bot_quant.Execution.Ownership.{
  OwnershipPolicy, new_client_id, client_id_text, pad6, tags,
}
use crypto_bot_quant.Execution.Order.Bracket.{IsBracket, build-IsBracket}
use crypto_bot_quant.Execution.Order.{
  Order, OrderPlan, OrderType, Role, buy, sell, market, stop_market, take_profit_market,
  trailing_stop,
}
use crypto_bot_quant.Execution.Order.Build.{
  build, build_flow, built, entry_price, resolve_style, round_to_tick, assemble, build_trailing,
  build_take_profit,
}
use crypto_bot_quant.Exchange.Metadata.{MetadataConfig, number_field, qty_step_field, find_spec}
use crypto_bot_quant.Ranking.Candidate.{stop_price, tp_price}
use crypto_bot_quant.Risk.Manager.Defs.{RiskDecision, round_step}
use crypto_bot_quant.Execution.Venue.{
  place_bracket, make_fill, make_position, filled_qty, actual_price, fee, open_position, rest_entry,
}
use crypto_bot_quant.Execution.Engine.{
  ExecutionResult, conclude, terms, execute, place_plan, outcome, prepare, revalidate, ready,
  aborted, position_without_exchange_side_stop,
}
use crypto_bot_quant.Execution.Engine.Safety.{IsCleared, execute_guarded}
use crypto_bot_quant.Execution.Engine.Simulated.{simulated, execute-simulated_protected}
use crypto_bot_quant.Tests.Samples.{
  metadata, venue, request, policy, ownership, long_btc, approved_25, contract,
}

abbrev bracket_tags : Dict String
bracket_tags =
    ("bot_instance_id", "bot_1")
    ∷ ("strategy_version", "1")
    ∷ ("config_version", "1")
    ∷ ("parent_id", "qb_entry_a1b2c3000001")
    ∷ []

abbrev exit_order : String → OrderType → Role → Option Nano → Option Nano → Option Nano → Order Nano
exit_order id kind role price trigger offset = record {
  client_id = id;
  symbol = "BTC";
  side = sell;
  qty = dec 25 0;
  order_type = kind;
  role = role;
  price = price;
  stop_price = trigger;
  trail_offset = offset;
  is_reduce_only = true;
  tags = bracket_tags;
}

-- The bracket of the shared candidate: a market entry with a stop at 98, a target at 104 and a trail.
abbrev bracket : OrderPlan Nano
bracket = record {
  symbol = "BTC";
  side = pos 1;
  qty = dec 25 0;
  entry = record {
    client_id = "qb_entry_a1b2c3000001";
    symbol = "BTC";
    side = buy;
    qty = dec 25 0;
    order_type = market;
    role = Role.entry;
    price = none;
    stop_price = none;
    trail_offset = none;
    is_reduce_only = false;
    tags = ("bot_instance_id", "bot_1") ∷ ("strategy_version", "1") ∷ ("config_version", "1") ∷ [];
  };
  stop = some (exit_order "qb_stop_a1b2c3000002" stop_market Role.stop none (some (dec 98 0)) none);
  take_profit = some (
      exit_order "qb_tp_a1b2c3000004" take_profit_market Role.take_profit (some (dec 104 0))
        (some (dec 104 0)) none);
  trailing =
      some
        (exit_order "qb_trail_a1b2c3000003" trailing_stop Role.trailing none none (some (dec 1 2)));
  entry_style = "taker";
}

abbrev ownership_after : OwnershipPolicy
ownership_after = record ownership { counter = 5 }

build_run :
    build policy ownership long_btc approved_25 contract none ≡ ok (built bracket, ownership_after)
unfolding build build_flow number_field qty_step_field round_step entry_price resolve_style
    round_to_tick assemble new_client_id client_id_text pad6 tags stop_price tp_price build_trailing
    build_take_profit lookup insert
build_run = refl

build-IsBracket_example : IsBracket policy long_btc bracket
build-IsBracket_example =
    build-IsBracket policy ownership long_btc approved_25 contract none build_run

minted_run :
    new_client_id "stop" ownership ≡ ok ("qb_stop_a1b2c3000001", record ownership { counter = 2 })
unfolding new_client_id client_id_text pad6
minted_run = refl

abbrev placed_result : ExecutionResult Nano
placed_result = conclude bracket (place_bracket bracket (terms policy long_btc request) venue).0

execute_run :
    (execute simulated policy metadata ownership false long_btc approved_25 request venue).0
    ≡ ok (placed_result, ownership_after)
unfolding execute place_plan simulated outcome prepare revalidate find_spec build build_flow
    number_field qty_step_field round_step entry_price resolve_style round_to_tick assemble
    new_client_id client_id_text pad6 tags stop_price tp_price build_trailing build_take_profit
    lookup insert
execute_run = refl

placed_run : placed_result.placed ≡ true
unfolding conclude place_bracket make_fill make_position filled_qty actual_price fee find_spec
    open_position rest_entry lookup insert
placed_run = refl

execute_guarded_example :
    let s' =
      (execute simulated policy metadata ownership false long_btc approved_25 request venue).1 in
    (s' ≡ venue)
    ⊎ ((plan : OrderPlan Nano) × (p' : OwnershipPolicy) × IsCleared policy metadata ownership false
          long_btc approved_25 none plan p'
        × (s' ≡ (simulated.place plan (terms policy long_btc request) venue).1))
execute_guarded_example =
    execute_guarded simulated policy metadata ownership false long_btc approved_25 request venue

-- A decision whose size is NaN, on a contract without a lot size.
abbrev nan_decision : RiskDecision Nano
nan_decision = record approved_25 { qty = none }

abbrev loose_metadata : MetadataConfig Nano
loose_metadata = record metadata { specs = ("BTC", record { symbol = "BTC"; fields = [] }) ∷ [] }

abbrev unprotected : ExecutionResult Nano
unprotected = aborted position_without_exchange_side_stop

nan_run :
    (execute simulated policy loose_metadata ownership false long_btc nan_decision request venue).0
    ≡ ok (unprotected, ownership_after)
unfolding execute place_plan simulated outcome prepare revalidate find_spec build build_flow
    number_field qty_step_field round_step entry_price resolve_style round_to_tick assemble
    new_client_id client_id_text pad6 tags stop_price tp_price build_trailing build_take_profit
    lookup insert conclude place_bracket make_fill make_position filled_qty actual_price fee
    open_position rest_entry
nan_run = refl

execute-simulated_protected_example :
    (plan : OrderPlan Nano) × (prepare policy loose_metadata ownership false long_btc nan_decision
        none
      ≡ ok (ready plan ownership_after))
    × ¬ (IsNumber (filled_qty plan.entry (terms policy long_btc request)))
execute-simulated_protected_example =
    execute-simulated_protected policy loose_metadata ownership false long_btc nan_decision request
      venue Nano-IsOrdered nan_run refl
