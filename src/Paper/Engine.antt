-- ===== src/Paper/Engine.antt =====
-- src/paper/engine.py: the state of the paper trading engine and its loss windows. The engine drives
-- a venue with states S. A write of the risk state succeeds or not as an argument says.
pub mod Restart
use Prim.Native.Nat.{◌+◌ as add, ◌*◌ as times, ◌/◌}
use crypto_bot_quant.Base.{
  ℕ, suc, Bool, true, false, not, String, Option, none, some, List, [], ◌∷◌, ◌++◌, ◌||◌, ◌&&◌, map,
  if◌then◌else◌, ltb, leb, ◌==◌, length,
}
use crypto_bot_quant.Base.Int.{ℤ, pos, negsuc, ◌+ℤ◌, ◌-ℤ◌, leb_ℤ, ltb_ℤ, sub_ℕ, pos_part, neg_part}
use crypto_bot_quant.Base.Result.{Result, ok, raised, type_error, ◌>>=◌}
use crypto_bot_quant.Base.Dict.{Dict, lookup, insert, erase, get_or}
use crypto_bot_quant.Base.Value.{Value, null, int, float, number?, truthy, float_or_zero}
use crypto_bot_quant.Base.Float.{Float, ◌+◌, ◌-◌, ◌*◌, lt, gt, max, nought}
use crypto_bot_quant.Risk.Portfolio.{Position}
use crypto_bot_quant.Risk.State.{RiskStateStore, update, refresh}
use crypto_bot_quant.Execution.Ownership.{OwnershipPolicy}

-- The levels that a paper position is held against.
pub record ExitLevels (W : Type 0) : Type 0 where
  pub stop : W
  pub tp : W
  pub hold_bars : ℤ
  pub entry_ts : ℤ

pub record PaperTradingEngine (W S : Type 0) : Type 0 where
  pub open_positions : Dict (Position W)
  pub position_meta : Dict (String × ℤ)
  pub exit_levels : Dict (ExitLevels W)
  pub position_funding : Dict W
  pub funding_watermark : Dict ℤ
  pub trail_dist : Dict W
  pub peak : Dict W
  pub realized_pnl : W
  pub per_symbol_pnl : Dict W
  pub sim_peak_equity : W
  pub day_key : Option ℤ
  pub week_key : Option ℤ
  pub day_start_realized : W
  pub week_start_realized : W
  pub free_margin : Option W
  pub account_equity : Option W
  pub session_start_equity : Option W
  pub peak_equity : W
  pub rv_day_key : Value W
  pub rv_week_key : Value W
  pub rv_day_anchor : Value W
  pub rv_week_anchor : Value W
  pub consecutive_losses : ℤ
  pub funding_paid_total : W
  pub week_start_funding : W
  pub recent_slippage : List W
  pub bar_interval_ms : ℤ
  pub state_store : Option (RiskStateStore W)
  pub venue : S
  pub ownership : OwnershipPolicy

-- `a // n`, rounded down.
unfoldable pub floor_div : ℤ → ℕ → ℤ
floor_div (pos a) n = pos (a / n)
floor_div (negsuc a) n = negsuc (a / n)

-- The UTC day of a time in milliseconds.
abbrev pub day_of : ℤ → ℤ
day_of ts = floor_div ts 86400000

-- Its week, from Monday on.
abbrev pub week_of : ℤ → ℤ
week_of ts = floor_div (ts -ℤ pos 345600000) 604800000

abbrev pub int_eq : ℤ → ℤ → Bool
int_eq a b = leb_ℤ a b && leb_ℤ b a

abbrev pub int_mul : ℤ → ℤ → ℤ
int_mul a b =
    sub_ℕ (add (times (pos_part a) (pos_part b)) (times (neg_part a) (neg_part b)))
      (add (times (pos_part a) (neg_part b)) (times (neg_part a) (pos_part b)))

abbrev pub int_max : ℤ → ℤ → ℤ
int_max a b = if ltb_ℤ a b then b else a

-- `key == n`, where a key may be unset.
abbrev pub same_key : Option ℤ → ℤ → Bool
same_key none n = false
same_key (some k) n = int_eq k n

-- The items of a `deque(maxlen=5)` after an append.
abbrev pub push_slippage : {W : Type 0} → W → List W → List W
push_slippage x (a ∷ b ∷ c ∷ d ∷ e ∷ rest) = (b ∷ c ∷ d ∷ e ∷ rest) ++ x ∷ []
push_slippage x xs = xs ++ x ∷ []

abbrev pub values : {V : Type 0} → Dict V → List V
values d = map (λ p. p.1) d

-- `d.get(k)` of a JSON object
abbrev pub value_at : {W : Type 0} → String → Dict (Value W) → Value W
value_at k d = get_or k null d

-- `v is None`
abbrev pub is_null : {W : Type 0} → Value W → Bool
is_null null = true
is_null _ = false

module _ {W : Type 0} ⦃f : Float W⦄ where
  -- `v == n` for a key out of the state file.
  abbrev pub same_value : Value W → ℤ → Bool
  same_value (int k) n = int_eq k n
  same_value v n = elim (number? v) [ none ↦ false | some x ↦ f.eq x (f.of_int n) ]

  -- The operand of a subtraction.
  abbrev pub operand : Value W → Result W
  operand v = elim (number? v) [ none ↦ raised type_error | some x ↦ ok x ]

module _ {W S : Type 0} where
  -- The seven pops of a position that is closed.
  unfoldable pub drop_mirrors : String → PaperTradingEngine W S → PaperTradingEngine W S
  drop_mirrors symbol e = record e {
    open_positions = erase symbol e.open_positions;
    position_meta = erase symbol e.position_meta;
    exit_levels = erase symbol e.exit_levels;
    position_funding = erase symbol e.position_funding;
    funding_watermark = erase symbol e.funding_watermark;
    trail_dist = erase symbol e.trail_dist;
    peak = erase symbol e.peak;
  }

  abbrev pub set_bar_interval : ℤ → PaperTradingEngine W S → PaperTradingEngine W S
  set_bar_interval interval_ms e =
      if ltb_ℤ (pos 0) interval_ms then record e { bar_interval_ms = interval_ms } else e

module _ {W S : Type 0} ⦃f : Float W⦄ where
  -- The keyword arguments that `_persist_state` gives to `update`.
  abbrev pub restart_state : PaperTradingEngine W S → List (String × Value W)
  restart_state e =
      ("consecutive_losses", int e.consecutive_losses)
      ∷ ("peak_equity", float e.peak_equity)
      ∷ ("day_key", e.rv_day_key)
      ∷ ("week_key", e.rv_week_key)
      ∷ ("day_anchor_equity", e.rv_day_anchor)
      ∷ ("week_anchor_equity", e.rv_week_anchor)
      ∷ []

  -- `_persist_state`
  unfoldable pub persist_state : Bool → PaperTradingEngine W S → PaperTradingEngine W S
  persist_state wrote e = elim e.state_store [
    | none ↦ e
    | some store ↦ record e { state_store = some (update wrote (restart_state e) store) }
  ]

  -- `attach_state_store`; `to_int` is the builtin `int`.
  unfoldable pub attach_state_store :
      (Value W → Result ℤ)
      → RiskStateStore W
      → PaperTradingEngine W S
      → Result (PaperTradingEngine W S)
  attach_state_store to_int store e =
      let loaded = refresh store in
      let st = loaded.state in
      let streak = value_at "consecutive_losses" st in
      (if truthy streak then to_int streak else ok (pos 0)) >>= λ losses.
      float_or_zero (value_at "peak_equity" st) >>= λ peak. ok (record e {
        state_store = some loaded;
        consecutive_losses = losses;
        peak_equity = max e.peak_equity peak;
        rv_day_key = value_at "day_key" st;
        rv_week_key = value_at "week_key" st;
        rv_day_anchor = value_at "day_anchor_equity" st;
        rv_week_anchor = value_at "week_anchor_equity" st;
      })

  -- `_register_realized`
  unfoldable pub register_realized :
      Bool → String → W → W → PaperTradingEngine W S → PaperTradingEngine W S
  register_realized wrote symbol pnl funding e = persist_state wrote (record e {
    realized_pnl = e.realized_pnl + pnl;
    per_symbol_pnl = insert symbol (get_or symbol nought e.per_symbol_pnl + pnl) e.per_symbol_pnl;
    consecutive_losses = if lt pnl nought then e.consecutive_losses +ℤ pos 1 else pos 0;
    funding_paid_total = e.funding_paid_total + funding;
  })

  -- `_cumulative_funding_paid`
  unfoldable pub cumulative_funding_paid : PaperTradingEngine W S → W
  cumulative_funding_paid e =
      (e.funding_paid_total - e.week_start_funding) + f.sum (values e.position_funding)

  -- `_abnormal_slippage_active`; the window is not empty where it divides.
  unfoldable pub abnormal_slippage_active : W → PaperTradingEngine W S → Bool
  abnormal_slippage_active max_slippage_frac e =
      let n = length e.recent_slippage in
      if ltb n 3
      then false
      else gt (f.quot (f.sum e.recent_slippage) (f.of_int (pos n))) max_slippage_frac

  -- The anchors of `_calendar_windows`, which roll at the boundary.
  unfoldable pub roll_anchors : ℤ → W → PaperTradingEngine W S → Bool × PaperTradingEngine W S
  roll_anchors ts equity e =
      let new_day = not (same_value e.rv_day_key (day_of ts)) || is_null e.rv_day_anchor in
      let new_week = not (same_value e.rv_week_key (week_of ts)) || is_null e.rv_week_anchor in
      (
        new_day || new_week,
        record e {
          rv_day_key = if new_day then int (day_of ts) else e.rv_day_key;
          rv_day_anchor = if new_day then float equity else e.rv_day_anchor;
          rv_week_key = if new_week then int (week_of ts) else e.rv_week_key;
          rv_week_anchor = if new_week then float equity else e.rv_week_anchor;
        },
      )

  -- `_calendar_windows`: the daily and the weekly result.
  unfoldable pub calendar_windows :
      Bool → ℤ → W → PaperTradingEngine W S → Result (W × W) × PaperTradingEngine W S
  unfolding roll_anchors
  calendar_windows wrote ts equity e =
      let (changed, rolled) = roll_anchors ts equity e in
      let kept = if changed then persist_state wrote rolled else rolled in
      (
        operand kept.rv_day_anchor >>= λ day.
            operand kept.rv_week_anchor >>= λ week. ok (equity - day, equity - week),
        kept,
      )

  -- `_roll_loss_windows`
  unfoldable pub roll_loss_windows : ℤ → PaperTradingEngine W S → PaperTradingEngine W S
  roll_loss_windows ts e =
      if leb_ℤ ts (pos 0)
      then e
      else let new_day = not (same_key e.day_key (day_of ts)) in
        let new_week = not (same_key e.week_key (week_of ts)) in
        record e {
          day_key = some (day_of ts);
          day_start_realized = if new_day then e.realized_pnl else e.day_start_realized;
          week_key = some (week_of ts);
          week_start_realized = if new_week then e.realized_pnl else e.week_start_realized;
          week_start_funding = if new_week then e.funding_paid_total else e.week_start_funding;
        }
