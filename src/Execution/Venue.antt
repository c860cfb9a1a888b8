-- ===== src/Execution/Venue.antt =====
-- src/execution/venue.py: the simulated venue. Every method returns the venue as it leaves it.
pub mod Placement
pub mod Cancelling
use Prim.Native.Nat.{◌+◌ as add}
use crypto_bot_quant.Base.{
  ℕ, Bool, true, false, not, String, Option, none, some, List, [], ◌∷◌, ◌++◌, ◌&&◌, ◌||◌, elem,
  is_some, length, str_eq, if◌then◌else◌,
}
use crypto_bot_quant.Base.Int.{ℤ}
use crypto_bot_quant.Base.Result.{Result, ok, raised, permission_error}
use crypto_bot_quant.Base.Result as Result
use crypto_bot_quant.Base.Dict.{Dict, lookup, insert, erase, contains}
use crypto_bot_quant.Base.Value.{Value, number?}
use crypto_bot_quant.Base.Float.{Float, ◌+◌, ◌-◌, ◌*◌, lt, le, gt, ge, nought, one, min, max}
use crypto_bot_quant.Exchange.Metadata.{MetadataConfig, find_spec}
use crypto_bot_quant.Execution.Order.{
  Side, buy, sell, OrderType, limit, post_only, Order, OrderPlan,
}

pub record Fill (W : Type 0) : Type 0 where
  pub client_id : String
  pub symbol : String
  pub side : Side
  pub qty : W
  pub expected_price : W
  pub actual_price : W
  pub fee : W
  pub maker : Bool
  pub latency_ms : W
  pub slippage_frac : W
  pub slippage_cost : W
  pub spread_bps_at_order : W
  pub signal_age_ms : W
  pub order_type : OrderType

pub record VenuePosition (W : Type 0) : Type 0 where
  pub symbol : String
  pub side : ℤ
  pub qty : W
  pub entry_price : W
  pub stop_order_id : Option String
  pub tp_order_id : Option String
  pub trail_order_id : Option String
  pub owned : Bool

pub record BracketResult (W : Type 0) : Type 0 where
  pub fill : Fill W
  pub position : VenuePosition W
  pub resting_order_ids : List String
  pub fully_filled : Bool
  pub remaining_qty : W

-- The keyword arguments of `place_bracket`.
pub record Terms (W : Type 0) : Type 0 where
  pub ref_price : W
  pub realized_slippage_frac : W
  pub latency_ms : W
  pub spread_bps : W
  pub signal_age_ms : W
  pub fill_ratio : W

pub record SimulatedVenue (W : Type 0) : Type 0 where
  pub meta : MetadataConfig W
  pub open_orders : Dict (Order W)
  pub positions : Dict (VenuePosition W)
  pub fills : List (Fill W)
  pub cancelled : List String
  pub replace_counter : ℕ

pub data OrderStatus : Type 0 where
  open_order cancelled_order unknown_order : OrderStatus

module _ {W : Type 0} where
  -- `VenuePosition.has_exchange_side_stop`
  abbrev pub has_stop : VenuePosition W → Bool
  has_stop p = is_some p.stop_order_id || is_some p.trail_order_id

  -- `_is_owned`: an order of the builder carries the bot's tag.
  unfoldable pub is_owned : Order W → Bool
  is_owned o = elim (lookup "bot_instance_id" o.tags) [
    | none ↦ false
    | some id ↦ not (str_eq id "")
  ]

  unfoldable pub order_status : SimulatedVenue W → String → OrderStatus
  order_status v client_id =
      if contains client_id v.open_orders
      then open_order
      else if elem client_id v.cancelled
      then cancelled_order
      else unknown_order

  -- `cancel`
  unfoldable pub cancel : Bool → String → SimulatedVenue W → Bool × SimulatedVenue W
  unfolding is_owned
  cancel owned_only client_id v = elim (lookup client_id v.open_orders) [
    | none ↦ (false, v)
    | some order ↦ if owned_only && not (is_owned order) then (false, v) else (
      true,
      record v { open_orders = erase client_id v.open_orders; cancelled = client_id ∷ v.cancelled },
    )
  ]

  unfoldable pub cancel_replace :
      String → Order W → SimulatedVenue W → Option String × SimulatedVenue W
  cancel_replace client_id new_order v =
      let (done, t) = cancel true client_id v in
      if done
      then (
        some new_order.client_id,
        record t {
          open_orders = insert new_order.client_id new_order t.open_orders;
          replace_counter = add t.replace_counter 1;
        },
      )
      else (none, t)

  unfoldable pub inject_foreign_order : Order W → SimulatedVenue W → SimulatedVenue W
  inject_foreign_order o v = record v { open_orders = insert o.client_id o v.open_orders }

  unfoldable pub inject_foreign_position : String → ℤ → W → W → SimulatedVenue W → SimulatedVenue W
  inject_foreign_position symbol side qty price v = record v {
    positions =
        insert symbol
          (record {
            symbol = symbol;
            side = side;
            qty = qty;
            entry_price = price;
            stop_order_id = none;
            tp_order_id = none;
            trail_order_id = none;
            owned = false;
          })
          v.positions;
  }

  -- The orders that are not for the symbol.
  unfoldable pub drop_symbol : String → Dict (Order W) → Dict (Order W)
  drop_symbol symbol [] = []
  drop_symbol symbol ((k, o) ∷ d) =
      let rest = drop_symbol symbol d in if str_eq o.symbol symbol then rest else (k, o) ∷ rest

  unfoldable pub close_position : String → SimulatedVenue W → Bool × SimulatedVenue W
  close_position symbol v = elim (lookup symbol v.positions) [
    | none ↦ (false, v)
    | some pos ↦ (
      true,
      record v {
        open_orders = drop_symbol symbol v.open_orders;
        positions = erase symbol v.positions;
      },
    )
  ]

  unfoldable pub emergency_close_all : Bool → SimulatedVenue W → Result ℕ × SimulatedVenue W
  emergency_close_all confirm v =
      if confirm
      then (
        ok (add (length v.positions) (length v.open_orders)),
        record v { open_orders = []; positions = [] },
      )
      else (raised permission_error, v)

-- `entry.order_type in (OrderType.POST_ONLY, OrderType.LIMIT)`
abbrev pub is_maker : OrderType → Bool
is_maker post_only = true
is_maker limit = true
is_maker _ = false

module _ {W : Type 0} ⦃f : Float W⦄ where
  -- `_fee`
  unfoldable pub fee : MetadataConfig W → String → W → Bool → W
  fee meta symbol notional maker = elim (find_spec meta symbol) [
    | none ↦ nought
    | some spec ↦
        let rate =
          elim (lookup (if maker then "maker_fee" else "taker_fee") spec.fields) as (λ _. W) [
            | none ↦ nought
            | some v ↦ elim (number? v) [ none ↦ nought | some x ↦ x ]
          ] in
        notional * rate
  ]

  abbrev pub price_or : W → Option W → W
  price_or default none = default
  price_or default (some x) = x

  -- The price that the entry fills at: its limit, or the reference with the slippage against it.
  unfoldable pub actual_price : Order W → Terms W → W
  actual_price entry t =
      if is_maker entry.order_type
      then price_or t.ref_price entry.price
      else t.ref_price
        * (one
            + elim entry.side as (λ _. W) [ buy ↦ one | sell ↦ f.neg one ]
              * t.realized_slippage_frac)

  unfoldable pub filled_qty : Order W → Terms W → W
  filled_qty entry t = entry.qty * max nought (min one t.fill_ratio)

  -- A protective leg, registered with the position that it protects.
  abbrev pub register : Option (Order W) → Dict (Order W) → Dict (Order W)
  register none d = d
  register (some o) d = insert o.client_id o d

  abbrev pub id_of : Option (Order W) → Option String
  id_of none = none
  id_of (some o) = some o.client_id

  abbrev pub ids : Option (Order W) → List String
  ids none = []
  ids (some o) = o.client_id ∷ []

  unfoldable pub make_fill : SimulatedVenue W → OrderPlan W → Terms W → Fill W
  unfolding fee actual_price filled_qty
  make_fill v plan t =
      let maker = is_maker plan.entry.order_type in
      let price = actual_price plan.entry t in
      let qty = filled_qty plan.entry t in
      record {
        client_id = plan.entry.client_id;
        symbol = plan.symbol;
        side = plan.entry.side;
        qty = qty;
        expected_price = price_or t.ref_price plan.entry.price;
        actual_price = price;
        fee = fee v.meta plan.symbol (qty * price) maker;
        maker = maker;
        latency_ms = t.latency_ms;
        slippage_frac = if maker then nought else t.realized_slippage_frac;
        slippage_cost = f.abs (price - t.ref_price) * qty;
        spread_bps_at_order = t.spread_bps;
        signal_age_ms = t.signal_age_ms;
        order_type = plan.entry.order_type;
      }

  -- The position of the plan, with its protective legs if anything was filled.
  unfoldable pub make_position : OrderPlan W → Fill W → VenuePosition W
  make_position plan fill =
      let opened = gt fill.qty nought in
      record {
        symbol = plan.symbol;
        side = plan.side;
        qty = fill.qty;
        entry_price = fill.actual_price;
        stop_order_id = if opened then id_of plan.stop else none;
        tp_order_id = if opened then id_of plan.take_profit else none;
        trail_order_id = if opened then id_of plan.trailing else none;
        owned = true;
      }

  -- The protective legs and the position, in the book if anything was filled.
  unfoldable pub open_position : OrderPlan W → VenuePosition W → SimulatedVenue W → SimulatedVenue W
  open_position plan position v =
      if gt position.qty nought
      then record v {
        open_orders =
            register plan.trailing (register plan.take_profit (register plan.stop v.open_orders));
        positions = insert plan.symbol position v.positions;
      }
      else v

  -- What is not filled rests as a working entry order.
  unfoldable pub rest_entry : OrderPlan W → Terms W → SimulatedVenue W → SimulatedVenue W
  rest_entry plan t v =
      if ge t.fill_ratio one
      then v
      else record v { open_orders = insert plan.entry.client_id plan.entry v.open_orders }

  -- `place_bracket`
  unfoldable pub place_bracket :
      OrderPlan W → Terms W → SimulatedVenue W → BracketResult W × SimulatedVenue W
  place_bracket plan t v =
      let fill = make_fill v plan t in
      let position = make_position plan fill in
      let fully = ge t.fill_ratio one in
      (
        record {
          fill = fill;
          position = position;
          resting_order_ids =
              (if gt fill.qty nought
                then ids plan.stop ++ (ids plan.take_profit ++ ids plan.trailing)
                else [])
              ++ (if fully then [] else plan.entry.client_id ∷ []);
          fully_filled = fully;
          remaining_qty = plan.entry.qty - fill.qty;
        },
        rest_entry plan t (open_position plan position (record v { fills = v.fills ++ fill ∷ [] })),
      )
