-- ===== src/Live/Guard.antt =====
-- src/live/guard.py: the guard that authorises each order of real money. The settings' predicate,
-- the gates and the sign-off are its arguments, as they are injected in the source; the count of
-- the orders placed lives on in the risk state of src/risk/state.py.
pub mod Bounded
use crypto_bot_quant.Base.{
  Bool, true, false, not, String, Option, none, some, List, [], ◌∷◌, if◌then◌else◌,
}
use crypto_bot_quant.Base.Int.{ℤ, pos, ◌+ℤ◌, ◌-ℤ◌, leb_ℤ}
use crypto_bot_quant.Base.Result.{Result, ok, raised}
use crypto_bot_quant.Base.Value.{Value, int, truthy}
use crypto_bot_quant.Base.Float.{Float, ◌+◌, ◌*◌, gt, eq, nought}
use crypto_bot_quant.Risk.State
use crypto_bot_quant.Risk.State.{RiskStateStore}
use crypto_bot_quant.Execution.Order.{OrderPlan}

pub record LiveLimits (W : Type 0) : Type 0 where
  pub max_orders_per_session : ℤ
  pub max_open_positions : ℤ
  pub max_order_notional_pct : W
  pub account_equity : W

-- The position source is the count that it gives when it is called.
pub record LiveActivationGuard (W : Type 0) : Type 0 where
  pub limits : LiveLimits W
  pub state_store : Option (RiskStateStore W)
  pub orders_placed : ℤ
  pub open_positions : ℤ
  pub position_source : Option ℤ

pub data Refusal : Type 0 where
  not_enabled gates_pending not_approved max_orders max_positions max_notional : Refusal

module _ {W : Type 0} where
  abbrev pub set_position_source : ℤ → LiveActivationGuard W → LiveActivationGuard W
  set_position_source source g = record g { position_source = some source }

  -- The concurrent positions that the cap counts.
  abbrev pub open_now : LiveActivationGuard W → ℤ
  open_now g = elim g.position_source [ none ↦ g.open_positions | some n ↦ n ]

  unfoldable pub persist : Bool → ℤ → Option (RiskStateStore W) → Option (RiskStateStore W)
  persist wrote placed none = none
  persist wrote placed (some s) =
      some (State.update wrote (("guard_orders_placed", int placed) ∷ []) s)

  unfoldable pub record_order_placed : Bool → Bool → LiveActivationGuard W → LiveActivationGuard W
  record_order_placed wrote opened g =
      let placed = g.orders_placed +ℤ pos 1 in
      record g {
        orders_placed = placed;
        open_positions = if opened then g.open_positions +ℤ pos 1 else g.open_positions;
        state_store = persist wrote placed g.state_store;
      }

  unfoldable pub register_close : LiveActivationGuard W → LiveActivationGuard W
  register_close g =
      let fewer = g.open_positions -ℤ pos 1 in
      record g { open_positions = if leb_ℤ (pos 0) fewer then fewer else pos 0 }

module _ {W : Type 0} ⦃f : Float W⦄ where
  -- `int(state_store.get("guard_orders_placed", 0) or 0)`, where `to_int` is the builtin on a value.
  unfoldable pub restore : (Value W → Result ℤ) → Option (Value W) → Result ℤ
  restore to_int none = ok (pos 0)
  restore to_int (some v) = if truthy v then to_int v else ok (pos 0)

  -- `__init__`
  unfoldable pub new_guard :
      (Value W → Result ℤ)
      → LiveLimits W
      → Option (RiskStateStore W)
      → Result (LiveActivationGuard W)
  new_guard to_int limits none = ok record {
    limits = limits;
    state_store = none;
    orders_placed = pos 0;
    open_positions = pos 0;
    position_source = none;
  }
  new_guard to_int limits (some store) =
      let (value, store1) = State.get "guard_orders_placed" store in
      elim (restore to_int value) [
        | raised e ↦ raised e
        | ok placed ↦ ok record {
          limits = limits;
          state_store = some store1;
          orders_placed = placed;
          open_positions = pos 0;
          position_source = none;
        }
      ]

  -- `price or 0.0`
  abbrev pub price_or_zero : Option W → W
  price_or_zero none = nought
  price_or_zero (some p) = if eq p nought then nought else p

  -- The limit price of the entry, and without one the trigger price of the stop.
  abbrev pub price_of : OrderPlan W → Option W
  price_of plan = elim plan.entry.price [
    | some p ↦ some p
    | none ↦ elim plan.stop [ none ↦ none | some s ↦ s.stop_price ]
  ]

  -- `_notional`
  unfoldable pub notional : OrderPlan W → W
  notional plan = plan.qty * price_or_zero (price_of plan)

  abbrev pub notional_cap : LiveLimits W → W
  notional_cap l = l.account_equity * l.max_order_notional_pct

  -- No refusal authorises the order.
  unfoldable pub allow_live_order :
      Bool → Bool → Bool → LiveActivationGuard W → OrderPlan W → Option Refusal
  allow_live_order live_trading_allowed gates_pass approved g plan =
      if not live_trading_allowed
      then some not_enabled
      else if not gates_pass
      then some gates_pending
      else if not approved
      then some not_approved
      else if leb_ℤ g.limits.max_orders_per_session g.orders_placed
      then some max_orders
      else if leb_ℤ g.limits.max_open_positions (open_now g)
      then some max_positions
      else if gt (notional plan) (notional_cap g.limits + f.lit 1 9)
      then some max_notional
      else none
