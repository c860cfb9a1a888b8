-- ===== src/Tests/Books.antt =====
-- The venue's books, reconciliation and exits at concrete inputs.
use crypto_bot_quant.Base.{
  true, false, not, String, Option, none, some, List, [], ◌∷◌, ◌≡◌, ◌↔◌, ◌||◌, refl, All,
}
use crypto_bot_quant.Base.Int.{pos}
use crypto_bot_quant.Base.Dict.{lookup, contains}
use crypto_bot_quant.Base.Float.{gt, nought}
use crypto_bot_quant.Base.Nano.{Nano, nano_float, dec}
use crypto_bot_quant.Brackets.{take_profit, effective_stop, resolve_bracket_exit}
use crypto_bot_quant.Brackets.Exit.{stop_hit, target_hit, resolve_bracket_exit_iff}
use crypto_bot_quant.Execution.Ownership.{is_own}
use crypto_bot_quant.Execution.Order.{Order}
use crypto_bot_quant.Execution.Venue.{SimulatedVenue, VenuePosition, filled_qty}
use crypto_bot_quant.Execution.Reconciliation.{reconcile_startup, is_position_protection}
use crypto_bot_quant.Execution.Reconciliation.Halt.{reconcile_startup_passes_iff}
use crypto_bot_quant.Base.Value.{text, int, float, items}
use crypto_bot_quant.Exchange.Metadata.{VerifiedSpec, MetadataConfig}
use crypto_bot_quant.Tests.Samples.{metadata, ownership, venue, whole_fill, entry_order, stop_order}

no_fill : gt (filled_qty entry_order (record whole_fill { fill_ratio = dec 0 0 })) nought ≡ false
unfolding filled_qty
no_fill = refl

-- Bitcoin held with its stop, and a foreign order on another symbol.
abbrev foreign_order : Order Nano
foreign_order = record entry_order { client_id = "web_1"; symbol = "SOL"; tags = [] }

abbrev held : VenuePosition Nano
held = record {
  symbol = "BTC";
  side = pos 1;
  qty = dec 1 0;
  entry_price = dec 100 0;
  stop_order_id = some "qb_stop";
  tp_order_id = none;
  trail_order_id = none;
  owned = true;
}

abbrev busy : SimulatedVenue Nano
busy = record venue {
  open_orders = ("qb_stop", stop_order) ∷ ("web_1", foreign_order) ∷ [];
  positions = ("BTC", held) ∷ [];
}

abbrev web_id : String
web_id = "web_1"

held_run : contains "BTC" busy.positions ≡ true
unfolding lookup
held_run = refl

foreign_run : lookup "web_1" busy.open_orders ≡ some foreign_order
unfolding lookup
foreign_run = refl

abbrev whole_account : Option (List String)
whole_account = none

reconcile_startup_passes_iff_example :
    let (r, _, _) = reconcile_startup ownership busy.open_orders busy.positions true none venue in
    (r.halt_required ≡ not r.reconciled)
    × ((r.reconciled ≡ true) ↔ (
        All
          (λ e.
            true ≡ true
            → (is_own ownership (some e.1.client_id) || is_position_protection e.1) ≡ true)
          busy.open_orders
        × (whole_account ≡ none → All (λ e. e.1.owned ≡ true) busy.positions)))
reconcile_startup_passes_iff_example =
    reconcile_startup_passes_iff ownership busy.open_orders busy.positions true none venue
      ((refl, tt), (tt, tt)) (tt, tt)

trailed_hit :
    stop_hit
      (pos 1)
      (dec 111 0)
      (dec 107 0)
      (effective_stop (pos 1) (dec 98 0) (dec 110 0) (dec 2 0))
    ≡ true
unfolding effective_stop
trailed_hit = refl

resolve_bracket_exit_iff_example :
    let eff = effective_stop (pos 1) (dec 98 0) (dec 100 0) (dec 0 0) in
    let r =
      resolve_bracket_exit
        (pos 1)
        (dec 105 0)
        (dec 99 0)
        (dec 98 0)
        (dec 104 0)
        (dec 100 0)
        (dec 0 0) in
    ((r ≡ (none, nought)) ↔ (
      (stop_hit (pos 1) (dec 105 0) (dec 99 0) eff ≡ false)
      × (target_hit (pos 1) (dec 105 0) (dec 99 0) (dec 104 0) ≡ false)))
    × ((r ≡ (some take_profit, dec 104 0)) ↔ (
        (stop_hit (pos 1) (dec 105 0) (dec 99 0) eff ≡ false)
        × (target_hit (pos 1) (dec 105 0) (dec 99 0) (dec 104 0) ≡ true)))
resolve_bracket_exit_iff_example =
    resolve_bracket_exit_iff (pos 1) (dec 105 0) (dec 99 0) (dec 98 0) (dec 104 0) (dec 100 0)
      (dec 0 0)

-- A reviewed contract, with every required field.
abbrev reviewed : VerifiedSpec Nano
reviewed = record {
  symbol = "BTC";
  fields =
      ("status", text "trading")
      ∷ ("contract_type", text "linear")
      ∷ ("quote_currency", text "USDT")
      ∷ ("tick_size", float (dec 1 1))
      ∷ ("lot_size", float (dec 1 3))
      ∷ ("qty_step", float (dec 1 3))
      ∷ ("price_precision", int (pos 1))
      ∷ ("min_order_size", float (dec 1 3))
      ∷ ("min_notional", int (pos 5))
      ∷ ("max_leverage", int (pos 100))
      ∷ ("margin_mode", text "isolated")
      ∷ ("position_mode", text "one_way")
      ∷ ("maker_fee", float (dec 2 4))
      ∷ ("taker_fee", float (dec 55 5))
      ∷ ("funding_interval_hours", int (pos 8))
      ∷ ("order_types", items ("limit" ∷ "market" ∷ []))
      ∷ [];
}

abbrev pub reviewed_metadata : MetadataConfig Nano
reviewed_metadata = record metadata { specs = ("BTC", reviewed) ∷ [] }
