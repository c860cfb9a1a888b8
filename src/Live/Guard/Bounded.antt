-- ===== src/Live/Guard/Bounded.antt =====
-- What the guard authorises, and that a session cannot exceed its budget.
use crypto_bot_quant.Base.{
  Bool, true, false, not, none, some, [], ◌∷◌, ◌≡◌, ◌↔◌, ◌&&◌, is_some, refl, arith,
}
use crypto_bot_quant.Base.Int.{◌-ℤ◌, eq_of_parts, ℤ, pos, ◌+ℤ◌, ◌≤ℤ◌, leb_ℤ, ltb_ℤ}
use crypto_bot_quant.Base.Result.{Result, ok}
use crypto_bot_quant.Base.Value.{Value, int}
use crypto_bot_quant.Base.Dict.{Dict, lookup-insert}
use crypto_bot_quant.Base.Float.{Float, ◌+◌, gt}
use crypto_bot_quant.Risk.State
use crypto_bot_quant.Risk.State.{RiskStateStore}
use crypto_bot_quant.Execution.Order.{OrderPlan}
use crypto_bot_quant.Live.Guard.{
  LiveLimits, LiveActivationGuard, open_now, persist, record_order_placed, register_close, restore,
  new_guard, notional, notional_cap, allow_live_order,
}

module _ {W : Type 0} ⦃f : Float W⦄ where
  -- An order is authorised exactly if live trading is enabled, the gates pass, a sign-off stands, the
  -- orders placed and the positions open are below their caps and the notional does not test above
  -- its cap.
  pub allow_live_order_iff :
      (live gates approved : Bool) (g : LiveActivationGuard W) (plan : OrderPlan W)
      → (allow_live_order live gates approved g plan ≡ none) ↔ (
          (live ≡ true)
          × (gates ≡ true)
          × (approved ≡ true)
          × (ltb_ℤ g.orders_placed g.limits.max_orders_per_session ≡ true)
          × (ltb_ℤ (open_now g) g.limits.max_open_positions ≡ true)
          × (gt (notional plan) (notional_cap g.limits + f.lit 1 9) ≡ false))
  unfolding allow_live_order
  allow_live_order_iff live gates approved g plan = ground arith

  -- A session of placements, each authorised, and of closes; none is wired to a position source.
  pub data Session (start : LiveActivationGuard W) : LiveActivationGuard W → Type 0 where
    started : Session start start
    placed :
        {g : LiveActivationGuard W} (live gates approved wrote opened : Bool) (plan : OrderPlan W)
        → Session start g
        → allow_live_order live gates approved g plan ≡ none
        → Session start (record_order_placed wrote opened g)
    closed : {g : LiveActivationGuard W} → Session start g → Session start (register_close g)

  abbrev pub is_within_caps : LiveActivationGuard W → Bool
  is_within_caps g =
      leb_ℤ g.orders_placed g.limits.max_orders_per_session
      && leb_ℤ g.open_positions g.limits.max_open_positions
      && leb_ℤ (pos 0) g.limits.max_open_positions
      && not (is_some g.position_source)

  record-is_within_caps :
      (live gates approved wrote opened : Bool) (g : LiveActivationGuard W) (plan : OrderPlan W)
      → is_within_caps g ≡ true
      → allow_live_order live gates approved g plan ≡ none
      → is_within_caps (record_order_placed wrote opened g) ≡ true
  unfolding allow_live_order record_order_placed ◌+ℤ◌
  record-is_within_caps live gates approved wrote opened g plan h k = ground arith

  close-is_within_caps :
      (g : LiveActivationGuard W)
      → is_within_caps g ≡ true
      → is_within_caps (register_close g) ≡ true
  unfolding register_close ◌-ℤ◌
  close-is_within_caps g h = ground arith

  Session-is_within_caps :
      {start g : LiveActivationGuard W}
      → Session start g
      → is_within_caps start ≡ true
      → is_within_caps g ≡ true
  Session-is_within_caps started h = h
  Session-is_within_caps (placed {g = g} live gates approved wrote opened plan s k) h =
      record-is_within_caps live gates approved wrote opened g plan (Session-is_within_caps s h) k
  Session-is_within_caps (closed {g = g} s) h = close-is_within_caps g (Session-is_within_caps s h)

  record-limits :
      (wrote opened : Bool) (g : LiveActivationGuard W)
      → (record_order_placed wrote opened g).limits ≡ g.limits
  unfolding record_order_placed
  record-limits wrote opened g = refl

  -- In a session without a position source that starts within its caps, however the placements that
  -- the guard authorises and the closes follow each other, the orders placed never exceed the cap
  -- on orders and the positions counted never exceed the cap on positions.
  pub session_within_caps :
      (start g : LiveActivationGuard W)
      → Session start g
      → is_within_caps start ≡ true
      → (g.orders_placed ≤ℤ g.limits.max_orders_per_session)
        × (g.open_positions ≤ℤ g.limits.max_open_positions)
  session_within_caps start g s h =
      let within = Session-is_within_caps s h in (ground arith, ground arith)

  restore-int :
      (to_int : Value W → Result ℤ) (n : ℤ)
      → to_int (int n) ≡ ok n
      → restore to_int (some (int n)) ≡ ok n
  unfolding restore
  restore-int to_int n h = ground (arith, eq_of_parts n (pos 0))

  count-written :
      (n : ℤ) (store : RiskStateStore W) (copy : Dict (Value W))
      → let written = State.update true (("guard_orders_placed", int n) ∷ []) store in
        (State.get "guard_orders_placed" (record written { state = copy })).0 ≡ some (int n)
  unfolding State.get State.update
  count-written n store copy =
      lookup-insert "guard_orders_placed" "guard_orders_placed" (int n) (State.read store.file)

  new_guard-restored :
      (to_int : Value W → Result ℤ) (limits : LiveLimits W) (store : RiskStateStore W) (n : ℤ)
      → restore to_int (State.get "guard_orders_placed" store).0 ≡ ok n
      → (g : LiveActivationGuard W) × (new_guard to_int limits (some store) ≡ ok g)
        × (g.orders_placed ≡ n)
  unfolding new_guard
  new_guard-restored to_int limits store n h = (
    record {
      limits = limits;
      state_store = some (State.get "guard_orders_placed" store).1;
      orders_placed = n;
      open_positions = pos 0;
      position_source = none;
    },
    rw (h, new_guard) refl,
    refl,
  )

  -- The budget survives a restart: after a placement whose count is written, a guard that starts
  -- from the file, whatever copy of it the process has, starts and counts the same orders. `to_int`
  -- gives an integer back as it is.
  pub restart_keeps_budget :
      (to_int : Value W → Result ℤ) (opened : Bool) (g : LiveActivationGuard W)
      (store : RiskStateStore W) (copy : Dict (Value W))
      → ((n : ℤ) → to_int (int n) ≡ ok n)
      → g.state_store ≡ some store
      → (written : RiskStateStore W) × ((record_order_placed true opened g).state_store
          ≡ some written)
        × (g' : LiveActivationGuard W) × (new_guard to_int g.limits
              (some (record written { state = copy }))
            ≡ ok g')
        × (g'.orders_placed ≡ (record_order_placed true opened g).orders_placed)
  unfolding record_order_placed persist
  restart_keeps_budget to_int opened g store copy h e =
      let placed = g.orders_placed +ℤ pos 1 in
      let written = State.update true (("guard_orders_placed", int placed) ∷ []) store in
      let (g', starts, same) =
        new_guard-restored to_int g.limits (record written { state = copy }) placed
          (rw (count-written placed store copy) (restore-int to_int placed (h placed))) in
      (written, rw e refl, g', starts, same)
