-- ===== src/Paper/Funding.antt =====
-- src/paper/engine.py and src/backtest/costs.py: the funding of the open positions. A feed gives the
-- events of a symbol or raises.
pub mod Once
use crypto_bot_quant.Base.{
  Bool, true, false, String, Option, none, some, List, [], ◌∷◌, ◌&&◌, if◌then◌else◌,
}
use crypto_bot_quant.Base.Int.{ℤ, pos, leb_ℤ, ltb_ℤ}
use crypto_bot_quant.Base.Result.{Result, ok, raised}
use crypto_bot_quant.Base.Dict.{Dict, lookup, insert, get_or}
use crypto_bot_quant.Base.Float.{Float, ◌+◌, ◌*◌, nought}
use crypto_bot_quant.Risk.Portfolio.{Position, notional}
use crypto_bot_quant.Paper.Engine.{PaperTradingEngine}

pub record FundingEvent (W : Type 0) : Type 0 where
  pub ts : ℤ
  pub funding_rate : W

-- What has accrued on a position, if anything has, and the last event that was settled.
abbrev pub Accrual : Type 0 → Type 0
Accrual W = Option W × ℤ

-- `set_funding_source`
abbrev pub FundingSource : Type 0 → Type 0
FundingSource W = String → Result (List (FundingEvent W))

module _ {W : Type 0} ⦃f : Float W⦄ (funding_multiplier : W) where
  -- `FundingModel.payment`
  unfoldable pub payment : ℤ → W → W → W
  payment side notional funding_rate =
      f.of_int side * funding_rate * f.abs notional * funding_multiplier

  abbrev pub add_payment : W → Option W → Option W
  add_payment x none = some (nought + x)
  add_payment x (some a) = some (a + x)

  -- One event: it is settled if it lies in `(last, now_ts]`.
  unfoldable pub settle_event : Position W → ℤ → FundingEvent W → Accrual W → Accrual W
  settle_event p now_ts ev (accrued, last) =
      if ltb_ℤ last ev.ts && leb_ℤ ev.ts now_ts
      then (add_payment (payment p.side (notional p) ev.funding_rate) accrued, ev.ts)
      else (accrued, last)

  -- The loop over the events.
  unfoldable pub settle : Position W → ℤ → List (FundingEvent W) → Accrual W → Accrual W
  settle p now_ts [] x = x
  settle p now_ts (ev ∷ evs) x = settle p now_ts evs (settle_event p now_ts ev x)

  module _ {S : Type 0} where
    -- What the engine has on a symbol, and its change.
    abbrev pub accrual_of : String → PaperTradingEngine W S → Accrual W
    accrual_of symbol e =
        (lookup symbol e.position_funding, get_or symbol (pos 0) e.funding_watermark)

    abbrev pub put_accrual : String → Accrual W → PaperTradingEngine W S → PaperTradingEngine W S
    put_accrual symbol (none, last) e = record e {
      funding_watermark = insert symbol last e.funding_watermark;
    }
    put_accrual symbol (some a, last) e = record e {
      position_funding = insert symbol a e.position_funding;
      funding_watermark = insert symbol last e.funding_watermark;
    }

    -- The body of the loop over the positions.
    unfoldable pub charge_position :
        ℤ
        → String
        → Position W
        → List (FundingEvent W)
        → PaperTradingEngine W S
        → PaperTradingEngine W S
    charge_position now_ts symbol p events e =
        put_accrual symbol (settle p now_ts events (accrual_of symbol e)) e

    unfoldable pub charge_positions :
        FundingSource W → ℤ → Dict (Position W) → PaperTradingEngine W S → PaperTradingEngine W S
    charge_positions source now_ts [] e = e
    charge_positions source now_ts ((symbol, p) ∷ ps) e =
        charge_positions source now_ts ps (elim (source symbol) [
          | raised x ↦ e
          | ok events ↦ charge_position now_ts symbol p events e
        ])

    -- `_charge_open_funding`
    unfoldable pub charge_open_funding :
        Option (FundingSource W) → ℤ → PaperTradingEngine W S → PaperTradingEngine W S
    charge_open_funding source now_ts e = elim source [
      | none ↦ e
      | some feed ↦ charge_positions feed now_ts e.open_positions e
    ]
