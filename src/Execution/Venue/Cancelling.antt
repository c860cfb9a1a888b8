-- ===== src/Execution/Venue/Cancelling.antt =====
-- What cancelling and closing touch, and what they never touch.
use crypto_bot_quant.Base.{
  Bool, true, false, String, Option, none, some, [], ◌∷◌, ◌≡◌, ◌≢◌, arith, refl, str_eq, eq_iff,
  All, Bool-cases, inl, inr,
}
use crypto_bot_quant.Base.Dict.{Dict, lookup, erase, contains, lookup-erase}
use crypto_bot_quant.Execution.Order.{Order}
use crypto_bot_quant.Execution.Venue.{
  SimulatedVenue, cancelled_order, is_owned, order_status, cancel, drop_symbol, close_position,
}

module _ {W : Type 0} where
  -- The bot may cancel this order by default.
  abbrev pub may_cancel : Option (Order W) → Bool
  may_cancel none = false
  may_cancel (some o) = is_owned o

  -- A cancel goes through exactly if the order rests and is the bot's own, then its status is
  -- cancelled; otherwise nothing changes. No other order is touched, and no position.
  pub cancel_lem :
      (id other : String) (v : SimulatedVenue W)
      → let (done, v') = cancel true id v in
        (done ≡ may_cancel (lookup id v.open_orders))
        × (done ≡ true → order_status v' id ≡ cancelled_order)
        × (done ≡ false → v' ≡ v)
        × (other ≢ id → lookup other v'.open_orders ≡ lookup other v.open_orders)
        × (v'.positions ≡ v.positions)
  unfolding cancel order_status
  cancel_lem id other v = ground (
    arith,
    lookup-erase id id v.open_orders,
    lookup-erase id other v.open_orders,
    eq_iff id id,
    eq_iff other id,
  )

  drop_symbol-All :
      (symbol : String) (d : Dict (Order W)) → All (λ e. e.1.symbol ≢ symbol) (drop_symbol symbol d)
  unfolding drop_symbol
  drop_symbol-All symbol [] = tt
  drop_symbol-All symbol ((k, o) ∷ d) = elim (Bool-cases (str_eq o.symbol symbol)) [
    | inl same ↦ rw same (drop_symbol-All symbol d)
    | inr other ↦
        rw other (λ e. ground (arith, eq_iff o.symbol symbol, e, other), drop_symbol-All symbol d)
  ]

  lookup-drop_symbol :
      (symbol id : String) {o : Order W} (d : Dict (Order W))
      → lookup id d ≡ some o
      → o.symbol ≢ symbol
      → lookup id (drop_symbol symbol d) ≡ some o
  unfolding lookup drop_symbol
  lookup-drop_symbol symbol id [] h ne = cc
  lookup-drop_symbol symbol id {o} ((k, o') ∷ d) h ne = ground (
    arith,
    lookup-drop_symbol symbol id {o = o} d,
    eq_iff o'.symbol symbol,
    eq_iff o.symbol symbol,
  )

  closed_book :
      (symbol : String) (v : SimulatedVenue W)
      → contains symbol v.positions ≡ true
      → close_position symbol v ≡ (
        true,
        record v {
          open_orders = drop_symbol symbol v.open_orders;
          positions = erase symbol v.positions;
        },
      )
  unfolding close_position
  closed_book symbol v held = ground arith

  -- Closing a position retires it with every order of its symbol, and keeps every other position and
  -- every order of another symbol.
  pub close_position_lem :
      (symbol other id : String) (v : SimulatedVenue W) {o : Order W}
      → contains symbol v.positions ≡ true
      → other ≢ symbol
      → lookup id v.open_orders ≡ some o
      → o.symbol ≢ symbol
      → let (done, v') = close_position symbol v in
        (done ≡ true)
        × (lookup symbol v'.positions ≡ none)
        × All (λ e. e.1.symbol ≢ symbol) v'.open_orders
        × (lookup other v'.positions ≡ lookup other v.positions)
        × (lookup id v'.open_orders ≡ some o)
  close_position_lem symbol other id v held ne h keeps = rw (closed_book symbol v held) (
    refl,
    ground (arith, lookup-erase symbol symbol v.positions, eq_iff symbol symbol),
    drop_symbol-All symbol v.open_orders,
    ground (arith, lookup-erase symbol other v.positions, eq_iff other symbol),
    lookup-drop_symbol symbol id v.open_orders h keeps,
  )
