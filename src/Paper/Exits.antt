-- ===== src/Paper/Exits.antt =====
-- src/paper/engine.py: how a position that is held leaves the book. The prices of the feed, the
-- fresh trade ids and the outcomes of the writes of the risk state are arguments.
use crypto_bot_quant.Base.{Bool, String, Option, none, some, ◌&&◌, if◌then◌else◌, is_some}
use crypto_bot_quant.Base.Int.{ℤ, pos, ◌-ℤ◌, leb_ℤ, ltb_ℤ, is_pos}
use crypto_bot_quant.Base.Dict.{lookup, erase}
use crypto_bot_quant.Base.Value.{number?}
use crypto_bot_quant.Base.Float.{Float, ◌*◌, gt, max, min, nought}
use crypto_bot_quant.Brackets.{
  ExitReason, fixed_stop, trailing_stop, take_profit, resolve_bracket_exit,
}
use crypto_bot_quant.Exchange.Metadata.{MetadataConfig, find_spec}
use crypto_bot_quant.Risk.Portfolio.{Position}
use crypto_bot_quant.Execution.Engine.{Venue}
use crypto_bot_quant.Execution.Venue.{SimulatedVenue}
use crypto_bot_quant.Paper.Session.{PaperTrade, PaperSession}
use crypto_bot_quant.Paper.Engine.{PaperTradingEngine, ExitLevels, int_mul}

-- What the engine calls of its venue: `close_position`, and the pop of `venue.positions`.
pub record PaperVenue (W S : Type 0) : Type 0 where
  pub orders : Venue W S
  pub close_position : String → S → S
  pub drop_position : String → S → S

abbrev pub drop_venue_position : {W : Type 0} → String → SimulatedVenue W → SimulatedVenue W
drop_venue_position symbol v = record v { positions = erase symbol v.positions }

-- The texts of `resolve_bracket_exit`.
abbrev pub exit_text : ExitReason → String
exit_text fixed_stop = "stop"
exit_text trailing_stop = "trailing_stop"
exit_text take_profit = "take_profit"

-- The arguments of `simulate_paper_exits`, and what its calls outside return.
pub record Bar (W : Type 0) : Type 0 where
  pub price_of : String → Option W
  pub hl_of : String → Option (W × W)
  pub now_ts : ℤ
  pub bar_iv : ℤ
  pub fresh_id : String → String
  pub wrote : String → Bool

-- The engine with the session that it writes to.
abbrev pub Trading : Type 0 → Type 0 → Type 0
Trading W S = PaperTradingEngine W S × PaperSession W

module _ {W : Type 0} ⦃f : Float W⦄ where
  -- `_exit_fee`
  unfoldable pub exit_fee : MetadataConfig W → String → W → Bool → W
  exit_fee meta symbol notional maker = elim (find_spec meta symbol) [
    | none ↦ nought
    | some spec ↦
        let rate =
          elim (lookup (if maker then "maker_fee" else "taker_fee") spec.fields) as (λ _. W) [
            | none ↦ nought
            | some v ↦ elim (number? v) [ none ↦ nought | some x ↦ x ]
          ] in
        f.abs notional * rate
  ]

  -- `_exit_slip_frac`
  unfoldable pub exit_slip_frac : W → Bool → W
  exit_slip_frac spread_bps maker =
      if maker then nought else max (f.lit 2 4) (f.quot (f.lit 5 1 * spread_bps) (f.lit 10000 0))

  -- `pnl / risk if risk > 0 else 0.0`
  abbrev pub in_risk_units : W → W → W
  in_risk_units pnl risk = if gt risk nought then f.quot pnl risk else nought

  -- The decision on a position for one bar: the reason and the price of its exit, if it exits.
  unfoldable pub exit_decision :
      Bar W → Position W → ExitLevels W → W → W → W → Option (W × W) → Option (String × W)
  exit_decision bar p lv trail peak price hl =
      let (high, low) = elim hl as (λ _. W × W) [ none ↦ (price, price) | some b ↦ b ] in
      let (reason, level) = resolve_bracket_exit p.side high low lv.stop lv.tp peak trail in
      elim reason as (λ _. Option (String × W)) [
        | some r ↦ some (exit_text r, if is_some hl then level else price)
        | none ↦
            if ltb_ℤ (pos 0) bar.bar_iv
              && ltb_ℤ (pos 0) lv.hold_bars
              && ltb_ℤ (pos 0) lv.entry_ts
              && leb_ℤ (int_mul lv.hold_bars bar.bar_iv) (bar.now_ts -ℤ lv.entry_ts)
            then some ("time_stop", price)
            else none
      ]

  -- The peak after a bar without an exit.
  unfoldable pub ratchet : Position W → W → W → Option (W × W) → W
  ratchet p peak price hl =
      let (high, low) = elim hl as (λ _. W × W) [ none ↦ (price, price) | some b ↦ b ] in
      if is_pos p.side then max peak high else min peak low

  -- The assignments that close a trade, but for the cost of its slippage.
  abbrev pub close_trade : String → ℤ → W → W → W → W → W → PaperTrade W → PaperTrade W
  close_trade reason now_ts price total_fee funding pnl risk t = record t {
    exit_price = price;
    exit_reason = reason;
    exit_ts = now_ts;
    fee = total_fee;
    funding = funding;
    pnl = pnl;
    pnl_r = in_risk_units pnl risk;
  }
