-- ===== src/Paper/Booking.antt =====
-- src/paper/engine.py: the book-keeping of exits: a simulated exit, the exits of a bar, and an exit
-- that the exchange reports.
use Prim.Native.Nat.{suc}
use crypto_bot_quant.Base.{
  ℕ, Bool, true, false, String, Option, none, some, [], ◌∷◌, ◌++◌, ◌&&◌, if◌then◌else◌, str_eq,
}
use crypto_bot_quant.Base.Int.{ℤ, pos, leb_ℤ}
use crypto_bot_quant.Base.Dict.{Dict, lookup, insert, get_or}
use crypto_bot_quant.Base.Float.{Float, ◌+◌, ◌-◌, ◌*◌, gt, nought, one}
use crypto_bot_quant.Exchange.Metadata.{MetadataConfig}
use crypto_bot_quant.Risk.Portfolio.{Position}
use crypto_bot_quant.Paper.Session.{PaperTrade, find_open, update_open}
use crypto_bot_quant.Paper.Engine.{drop_mirrors, register_realized, roll_loss_windows}
use crypto_bot_quant.Paper.Funding.{FundingSource, charge_open_funding}
use crypto_bot_quant.Paper.Exits.{
  PaperVenue, Bar, Trading, exit_fee, exit_slip_frac, in_risk_units, exit_decision, ratchet,
  close_trade,
}

module _ {W : Type 0} ⦃f : Float W⦄ where
  -- A close that finds no open trade: a trade of its own.
  unfoldable pub standalone_trade :
      String → String → String → ℤ → Position W → W → String → ℤ → W → W → W → PaperTrade W
  standalone_trade trade_id symbol strategy entry_ts p exit_price reason now_ts fee pnl funding =
      record {
        trade_id = trade_id;
        symbol = symbol;
        strategy = strategy;
        side = p.side;
        qty = p.qty;
        entry_price = p.entry_price;
        stop_price = nought;
        tp_price = nought;
        regime = p.regime;
        session = pos 0;
        decision_ts = entry_ts;
        entry_ts = if leb_ℤ entry_ts (pos 0) && leb_ℤ (pos 0) entry_ts then now_ts else entry_ts;
        exit_ts = now_ts;
        exit_price = exit_price;
        exit_reason = reason;
        fee = fee;
        slippage_cost = nought;
        pnl = pnl;
        pnl_r = in_risk_units pnl p.risk_amount;
        has_exchange_side_stop = true;
        execution_route = "taker";
        spread_bps_at_entry = nought;
        slippage_frac = nought;
        funding = funding;
      }

  module _ {S : Type 0} (meta : MetadataConfig W) (venue : PaperVenue W S) where
    -- The end of `_book_paper_exit`, where the session has the open trade t.
    unfoldable pub close_open :
        Bool → Position W → String → W → String → ℤ → W → PaperTrade W → Trading W S → Trading W S
    close_open wrote p symbol exit_price reason now_ts funding t (e, s) =
        let maker = str_eq reason "take_profit" && str_eq t.execution_route "maker" in
        let slip = exit_slip_frac t.spread_bps_at_entry maker in
        let fill_price = exit_price * (one - f.of_int p.side * slip) in
        let exit_slip_cost = f.abs (fill_price - exit_price) * p.qty in
        let fee = exit_fee meta symbol (fill_price * p.qty) maker in
        let raw_pnl = (fill_price - p.entry_price) * f.of_int p.side * p.qty in
        let total_fee = t.fee + fee in
        let pnl = raw_pnl - total_fee - funding in
        (
          register_realized wrote symbol pnl funding e,
          record s {
            trades =
                update_open symbol
                  (λ u.
                    record (close_trade reason now_ts fill_price total_fee funding pnl p.risk_amount
                      u) { slippage_cost = u.slippage_cost + exit_slip_cost })
                  s.trades;
          },
        )

    -- The same where it has none.
    unfoldable pub close_standalone :
        Bool → String → Position W → String → W → String → ℤ → W → Trading W S → Trading W S
    close_standalone wrote trade_id p symbol exit_price reason now_ts funding (e, s) =
        let fill_price = exit_price * (one - f.of_int p.side * nought) in
        let fee = exit_fee meta symbol (fill_price * p.qty) false in
        let raw_pnl = (fill_price - p.entry_price) * f.of_int p.side * p.qty in
        let pnl = raw_pnl - fee - funding in
        let (strategy, entry_ts) = get_or symbol ("", pos 0) e.position_meta in
        (
          register_realized wrote symbol pnl funding e,
          record s {
            trades =
                s.trades
                ++ standalone_trade trade_id symbol strategy entry_ts p exit_price reason now_ts fee
                    pnl funding
                  ∷ [];
          },
        )

    -- `_book_paper_exit`
    unfoldable pub book_paper_exit :
        Bool → String → String → W → String → ℤ → Trading W S → Trading W S
    book_paper_exit wrote trade_id symbol exit_price reason now_ts (e, s) =
        elim (lookup symbol e.open_positions) [
          | none ↦ (e, s)
          | some p ↦
              let funding = get_or symbol nought e.position_funding in
              let e1 = drop_mirrors symbol e in
              let e2 = record e1 { venue = venue.close_position symbol e1.venue } in
              elim (find_open symbol s.trades) [
                | some t ↦ close_open wrote p symbol exit_price reason now_ts funding t (e2, s)
                | none ↦
                    close_standalone wrote trade_id p symbol exit_price reason now_ts funding
                      (e2, s)
              ]
        ]

    -- One position of the loop of `simulate_paper_exits`: whether it is closed.
    unfoldable pub simulate_position :
        Bar W → String → Position W → Trading W S → Bool × Trading W S
    simulate_position bar symbol p (e, s) = elim (bar.price_of symbol) [
      | none ↦ (false, (e, s))
      | some price ↦
          let levels =
            get_or symbol
              (record { stop = nought; tp = nought; hold_bars = pos 0; entry_ts = pos 0 })
              e.exit_levels in
          let trail = get_or symbol nought e.trail_dist in
          let peak = get_or symbol p.entry_price e.peak in
          let hl = bar.hl_of symbol in
          elim (exit_decision bar p levels trail peak price hl) [
            | some (reason, exit_price) ↦ (
              true,
              book_paper_exit (bar.wrote symbol) (bar.fresh_id symbol) symbol exit_price reason
                  bar.now_ts (e, s),
            )
            | none ↦ (
              false,
              (
                if gt trail nought
                    then record e { peak = insert symbol (ratchet p peak price hl) e.peak }
                    else e,
                s,
              ),
            )
          ]
    ]

    unfoldable pub simulate_positions : Bar W → Dict (Position W) → Trading W S → ℕ × Trading W S
    simulate_positions bar [] st = (0, st)
    simulate_positions bar ((symbol, p) ∷ ps) st =
        let (done, st1) = simulate_position bar symbol p st in
        let (closed, st2) = simulate_positions bar ps st1 in
        (if done then suc closed else closed, st2)

    -- `simulate_paper_exits`
    unfoldable pub simulate_paper_exits :
        Option (FundingSource W) → W → Bar W → Bool → Trading W S → ℕ × Trading W S
    simulate_paper_exits source funding_multiplier bar charge_funding_and_roll (e, s) =
        let e1 =
          if charge_funding_and_roll
          then charge_open_funding funding_multiplier source bar.now_ts
              (roll_loss_windows bar.now_ts e)
          else e in
        simulate_positions bar e1.open_positions (e1, s)

  -- `book_exchange_exit`: whether it books a trade.
  unfoldable pub book_exchange_exit :
      {S : Type 0} → Bool → String → W → W → ℤ → String → Trading W S → Bool × Trading W S
  book_exchange_exit wrote symbol exit_price fee now_ts reason (e, s) =
      let e1 = roll_loss_windows now_ts e in
      let funding = get_or symbol nought e1.position_funding in
      let e2 = drop_mirrors symbol e1 in
      elim (find_open symbol s.trades) [
        | none ↦ (false, (e2, s))
        | some t ↦
            let raw_pnl = (exit_price - t.entry_price) * f.of_int t.side * t.qty in
            let total_fee = t.fee + fee in
            let pnl = raw_pnl - total_fee - funding in
            let planned = f.abs (t.entry_price - t.stop_price) * t.qty in
            let risk_amount = elim (lookup symbol e1.open_positions) as (λ _. W) [
              | none ↦ planned
              | some p ↦ if gt p.risk_amount nought then p.risk_amount else planned
            ] in
            (
              true,
              (
                register_realized wrote symbol pnl funding e2,
                record s {
                  trades =
                      update_open symbol
                        (close_trade reason now_ts exit_price total_fee funding pnl risk_amount)
                        s.trades;
                },
              ),
            )
      ]
