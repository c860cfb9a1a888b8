-- ===== src/Paper/Watch.antt =====
-- src/paper/engine.py: the kill switch and the reconciliation, as a session exercises them. The venue
-- is the simulated one, whose books the reconciliation reads.
use crypto_bot_quant.Base.{Bool, true, false, String, none, some, [], ◌∷◌, ◌++◌, if◌then◌else◌}
use crypto_bot_quant.Base.Result.{Result, ok, raised}
use crypto_bot_quant.Base.Dict.{insert, keys}
use crypto_bot_quant.Base.Float.{Float}
use crypto_bot_quant.KillSwitch.{Environment, KillSwitch}
use crypto_bot_quant.KillSwitch as KillSwitch
use crypto_bot_quant.Execution.Ownership.{OwnershipPolicy}
use crypto_bot_quant.Execution.Order.{Order, buy, limit, Role}
use crypto_bot_quant.Execution.Venue.{SimulatedVenue}
use crypto_bot_quant.Execution.Reconciliation.{reconcile}
use crypto_bot_quant.Paper.Session.{PaperSession}

-- The event of an action.
abbrev logged : {W : Type 0} → String → PaperSession W → PaperSession W
logged action s = record s {
  kill_switch_events =
      s.kill_switch_events ++ record { action = action; source = "paper_engine" } ∷ [];
}

module _ {W E : Type 0} ⦃f : Float W⦄ where
  unfoldable pub engage_kill_switch :
      Environment W E
      → KillSwitch W
      → PaperSession W
      → E
      → Result (Unit {0}) × KillSwitch W × PaperSession W × E
  engage_kill_switch v k s e =
      let (r, k1, e1) = KillSwitch.engage v "paper_test" "cli" k e in
      elim r [
        | raised x ↦ (raised x, k1, s, e1)
        | ok done ↦ (ok tt, k1, logged "engaged" (record s { kill_switch_exercised = true }), e1)
      ]

  unfoldable pub disengage_kill_switch :
      Environment W E
      → KillSwitch W
      → PaperSession W
      → E
      → Result (Unit {0}) × KillSwitch W × PaperSession W × E
  disengage_kill_switch v k s e =
      let (r, k1, e1) = KillSwitch.disengage v k e in
      elim r [ raised x ↦ (raised x, k1, s, e1) | ok done ↦ (ok tt, k1, logged "disengaged" s, e1) ]

module _ {W : Type 0} ⦃f : Float W⦄ where
  -- The order that a person would have placed.
  abbrev foreign_order : Order W
  foreign_order = record {
    client_id = "MANUAL_TRADE_UNKNOWN_001";
    symbol = "BTC/USDT:USDT";
    side = buy;
    qty = f.lit 1 2;
    order_type = limit;
    role = Role.entry;
    price = some (f.lit 50000 0);
    stop_price = none;
    trail_offset = none;
    is_reduce_only = false;
    tags = [];
  }

  -- `run_reconciliation`: whether a halt is required.
  unfoldable pub run_reconciliation :
      OwnershipPolicy → SimulatedVenue W → Bool → PaperSession W → Bool × PaperSession W
  run_reconciliation p v inject s =
      let orders =
        if inject
        then insert foreign_order.client_id foreign_order v.open_orders
        else v.open_orders in
      let (result, alerts) =
        reconcile p orders v.positions (keys v.open_orders) (keys v.positions) in
      (
        result.halt_required,
        record s {
          foreign_order_halt_triggered =
              if result.halt_required then true else s.foreign_order_halt_triggered;
          reconciliation_events =
              s.reconciliation_events
              ++ record {
                bot_positions = keys v.positions;
                injected_foreign = inject;
                halt_triggered = result.halt_required;
                unknown_orders = result.unknown_orders;
              }
                ∷ [];
        },
      )
