-- ===== src/Paper/Entry.antt =====
-- src/paper/engine.py: the trade that a placed order becomes, in the session and in the mirrors. The
-- exit of a replayed candidate is known at once, any other stays open.
use crypto_bot_quant.Base.{
  Bool, not, String, none, some, [], ◌∷◌, ◌++◌, ◌&&◌, ◌||◌, if◌then◌else◌, str_eq,
}
use crypto_bot_quant.Base.Int.{ℤ, pos, ◌+ℤ◌, ltb_ℤ, is_pos}
use crypto_bot_quant.Base.Result.{Result, ok, raised}
use crypto_bot_quant.Base.Dict.{lookup, insert}
use crypto_bot_quant.Base.Value.{truthy, to_float}
use crypto_bot_quant.Base.Float.{Float, ◌+◌, ◌-◌, ◌*◌, le, gt, ge, eq, nought, one}
use crypto_bot_quant.Exchange.Metadata.{MetadataConfig, find_spec}
use crypto_bot_quant.Ranking.Candidate.{Candidate}
use crypto_bot_quant.Risk.Config.{beta_to_btc}
use crypto_bot_quant.Risk.Manager.Defs.{RiskDecision}
use crypto_bot_quant.Execution.Order.Build.{no_fixed_tp_frac}
use crypto_bot_quant.Execution.Venue.{Fill, VenuePosition, has_stop}
use crypto_bot_quant.Paper.Session.{PaperTrade, is_open}
use crypto_bot_quant.Paper.Engine.{
  PaperTradingEngine, int_mul, push_slippage, drop_mirrors, register_realized,
}
use crypto_bot_quant.Paper.Exits.{PaperVenue, Trading, exit_slip_frac, in_risk_units}
use crypto_bot_quant.Paper.Input.{PaperCandidateInput, Pipeline, Moment, accepted}

-- The levels of an entry and the exit that it meets at once, if any.
pub record Resolved (W : Type 0) : Type 0 where
  pub stop_price : W
  pub tp_price : W
  pub exit_price : W
  pub exit_reason : String
  pub funding_amount : W

-- The price, the fee and the slippage of that exit.
pub record ExitCosts (W : Type 0) : Type 0 where
  pub exit_price : W
  pub fee : W
  pub slip_cost : W

module _ {W : Type 0} ⦃f : Float W⦄ where
  -- The bracket that the forward price has reached.
  unfoldable pub classify_exit : Candidate W → W → W → W → W → String
  classify_exit c move stop_price tp_price exit_price =
      let long = is_pos c.side in
      let short = ltb_ℤ c.side (pos 0) in
      let favorable = gt (move * f.of_int c.side) nought in
      if eq move nought
      then "open"
      else if favorable
          && gt tp_price nought
          && ((long && ge exit_price tp_price) || (short && le exit_price tp_price))
      then "take_profit"
      else if not favorable
          && ((long && le exit_price stop_price) || (short && ge exit_price stop_price))
      then "stop"
      else "open"

  unfoldable pub resolve : PaperCandidateInput W → Fill W → Resolved W
  resolve inp fill =
      let c = inp.candidate in
      let entry_price = fill.actual_price in
      let stop_price = entry_price * (one - c.stop_frac * f.of_int c.side) in
      let tp_price =
        if ge c.tp_frac no_fixed_tp_frac
        then nought
        else entry_price * (one + c.tp_frac * f.of_int c.side) in
      let exit_price = entry_price * (one + inp.exit_move_frac) in
      record {
        stop_price = stop_price;
        tp_price = tp_price;
        exit_price = exit_price;
        exit_reason = elim inp.exit_reason as (λ _. String) [
          | some reason ↦ reason
          | none ↦ classify_exit c inp.exit_move_frac stop_price tp_price exit_price
        ];
        funding_amount = elim inp.exit_reason as (λ _. W) [
          | some reason ↦ inp.funding_frac * entry_price * fill.qty
          | none ↦ nought
        ];
      }

  -- `float(fields.get(key, default) or default)`
  unfoldable pub exit_rate : MetadataConfig W → String → Bool → Result W
  exit_rate meta symbol maker =
      let default = if maker then f.lit 2 4 else f.lit 6 4 in
      elim (find_spec meta symbol) [
        | none ↦ ok default
        | some spec ↦ elim (lookup (if maker then "maker_fee" else "taker_fee") spec.fields) [
          | none ↦ ok default
          | some v ↦ if truthy v then to_float v else ok default
        ]
      ]

  unfoldable pub exit_costs :
      MetadataConfig W → Candidate W → Fill W → Resolved W → Result (ExitCosts W)
  exit_costs meta c fill r =
      if str_eq r.exit_reason "open"
      then ok record { exit_price = r.exit_price; fee = nought; slip_cost = nought }
      else let maker_exit = c.maker && str_eq r.exit_reason "take_profit" in
        let slip = exit_slip_frac c.spread_bps maker_exit in
        let exit_price = r.exit_price * (one - f.of_int c.side * slip) in
        elim (exit_rate meta c.symbol maker_exit) [
          | raised x ↦ raised x
          | ok rate ↦ ok record {
            exit_price = exit_price;
            fee = rate * fill.qty * exit_price;
            slip_cost = f.abs (exit_price - r.exit_price) * fill.qty;
          }
        ]

  -- The risk of the trade: what the decision says, or the distance to the stop.
  unfoldable pub risk_of : RiskDecision W → Fill W → Resolved W → W
  risk_of decision fill r =
      if eq decision.risk_amount nought
      then f.abs (fill.actual_price - r.stop_price) * fill.qty
      else decision.risk_amount

  unfoldable pub make_trade :
      Moment
      → ℤ
      → PaperCandidateInput W
      → RiskDecision W
      → Fill W
      → VenuePosition W
      → Resolved W
      → ExitCosts W
      → PaperTrade W
  make_trade m bar_interval_ms inp decision fill position r x =
      let c = inp.candidate in
      let fee = fill.fee + x.fee in
      let raw_pnl = (x.exit_price - fill.actual_price) * f.of_int c.side * fill.qty in
      let pnl = raw_pnl - fee - r.funding_amount in
      record {
        trade_id = m.trade_id;
        symbol = c.symbol;
        strategy = c.strategy;
        side = c.side;
        qty = fill.qty;
        entry_price = fill.actual_price;
        stop_price = r.stop_price;
        tp_price = r.tp_price;
        regime = c.regime;
        session = c.session;
        decision_ts = c.decision_ts;
        entry_ts = m.now_ts;
        exit_ts = m.now_ts +ℤ int_mul inp.hold_bars bar_interval_ms;
        exit_price = x.exit_price;
        exit_reason = r.exit_reason;
        fee = fee;
        slippage_cost = fill.slippage_cost + x.slip_cost;
        pnl = pnl;
        pnl_r = in_risk_units pnl (risk_of decision fill r);
        has_exchange_side_stop = has_stop position;
        execution_route = if fill.maker then "maker" else "taker";
        spread_bps_at_entry = fill.spread_bps_at_order;
        slippage_frac = fill.slippage_frac;
        funding = r.funding_amount;
      }

  module _ {S : Type 0} (venue : PaperVenue W S) (p : Pipeline W) where
    -- The mirrors of a position that stays open.
    unfoldable pub open_mirrors :
        Moment → Candidate W → W → PaperTrade W → PaperTradingEngine W S → PaperTradingEngine W S
    open_mirrors m c risk_amount t e = record e {
      open_positions =
          insert c.symbol
            (record {
              symbol = c.symbol;
              side = c.side;
              qty = t.qty;
              entry_price = t.entry_price;
              risk_amount = risk_amount;
              beta_to_btc = beta_to_btc p.risk_cfg c.symbol;
              regime = c.regime;
            })
            e.open_positions;
      position_meta = insert c.symbol (c.strategy, c.decision_ts) e.position_meta;
      exit_levels =
          insert c.symbol
            (record {
              stop = t.stop_price;
              tp = t.tp_price;
              hold_bars = c.hold_bars;
              entry_ts = c.decision_ts;
            })
            e.exit_levels;
      position_funding = insert c.symbol nought e.position_funding;
      funding_watermark = insert c.symbol m.now_ts e.funding_watermark;
      trail_dist =
          insert c.symbol
            ((if eq c.trail_frac nought then nought else c.trail_frac) * t.entry_price)
            e.trail_dist;
      peak = insert c.symbol t.entry_price e.peak;
    }

    -- The mirrors after the trade: a position that is still open, or a result that is realized.
    unfoldable pub mirror :
        Moment → Candidate W → W → PaperTrade W → PaperTradingEngine W S → PaperTradingEngine W S
    mirror m c risk_amount t e =
        if is_open t
        then open_mirrors m c risk_amount t e
        else let e1 = drop_mirrors c.symbol e in
          register_realized m.wrote_result c.symbol t.pnl t.funding
            (record e1 { venue = venue.drop_position c.symbol e1.venue })

    -- What follows a placed order.
    unfoldable pub book_entry :
        Moment
        → PaperCandidateInput W
        → RiskDecision W
        → Fill W
        → VenuePosition W
        → Trading W S
        → Result (Unit {0}) × Trading W S
    book_entry m inp decision fill position (e, s) =
        let c = inp.candidate in
        let e1 = record e {
          recent_slippage = push_slippage fill.slippage_frac e.recent_slippage;
        } in
        let r = resolve inp fill in
        elim (exit_costs p.meta c fill r) [
          | raised x ↦ (raised x, (e1, s))
          | ok x ↦
              let t = make_trade m e1.bar_interval_ms inp decision fill position r x in
              (
                ok tt,
                (
                  mirror m c (risk_of decision fill r) t e1,
                  accepted m c (record s { trades = s.trades ++ t ∷ [] }),
                ),
              )
        ]
