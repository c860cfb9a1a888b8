-- ===== src/Execution/Venue/Placement.antt =====
-- What the placement of a bracket leaves in the book.
use crypto_bot_quant.Base.{
  true, false, String, Option, none, some, [], ◌∷◌, ◌++◌, ◌≡◌, ◌≢◌, arith, refl, eq_iff,
}
use crypto_bot_quant.Base.Dict.{Dict, lookup, lookup-insert}
use crypto_bot_quant.Base.Float.{Float, gt, nought}
use crypto_bot_quant.Execution.Order.{Order, OrderPlan}
use crypto_bot_quant.Execution.Venue.{
  Fill, id_of, SimulatedVenue, VenuePosition, Terms, has_stop, filled_qty, make_fill, make_position,
  open_position, rest_entry, place_bracket,
}

module _ {W : Type 0} ⦃f : Float W⦄ where
  -- The id is not that of the leg.
  abbrev pub Avoids : String → Option (Order W) → Type 0
  Avoids id none = Unit
  Avoids id (some o) = id ≢ o.client_id

  fill-qty :
      (v : SimulatedVenue W) (plan : OrderPlan W) (t : Terms W)
      → (make_fill v plan t).qty ≡ filled_qty plan.entry t
  unfolding make_fill
  fill-qty v plan t = refl

  lookup-rest_entry :
      (id : String) (plan : OrderPlan W) (t : Terms W) (v : SimulatedVenue W)
      → id ≢ plan.entry.client_id
      → lookup id (rest_entry plan t v).open_orders ≡ lookup id v.open_orders
  unfolding rest_entry
  lookup-rest_entry id plan t v h = ground (
    arith,
    lookup-insert plan.entry.client_id id plan.entry v.open_orders,
    eq_iff id plan.entry.client_id,
  )

  positions-rest_entry :
      (plan : OrderPlan W) (t : Terms W) (v : SimulatedVenue W)
      → (rest_entry plan t v).positions ≡ v.positions
  unfolding rest_entry
  positions-rest_entry plan t v = ground arith

  unopened_book :
      (plan : OrderPlan W) (p : VenuePosition W) (v : SimulatedVenue W)
      → gt p.qty nought ≡ false
      → open_position plan p v ≡ v
  unfolding open_position
  unopened_book plan p v h = ground arith

  position_lem :
      (plan : OrderPlan W) (fill : Fill W)
      → ((make_position plan fill).qty ≡ fill.qty)
        × (gt fill.qty nought ≡ true → (make_position plan fill).stop_order_id ≡ id_of plan.stop)
        × (gt fill.qty nought ≡ false → has_stop (make_position plan fill) ≡ false)
  unfolding make_position
  position_lem plan fill = ground arith

  -- A zero fill leaves no trace but its record and the resting entry: the positions and every order
  -- but the entry are as before, and the result claims no protection.
  pub place_bracket_unfilled :
      (plan : OrderPlan W) (t : Terms W) (v : SimulatedVenue W) (id : String)
      → gt (filled_qty plan.entry t) nought ≡ false
      → id ≢ plan.entry.client_id
      → let (r, v') = place_bracket plan t v in
        (v'.positions ≡ v.positions)
        × (lookup id v'.open_orders ≡ lookup id v.open_orders)
        × (has_stop r.position ≡ false)
  unfolding place_bracket
  place_bracket_unfilled plan t v id none_filled ne =
      let fill = make_fill v plan t in
      let v1 = record v { fills = v.fills ++ fill ∷ [] } in
      let pos = make_position plan fill in
      ground (
        arith,
        fill-qty v plan t,
        position_lem plan fill,
        unopened_book plan pos v1,
        positions-rest_entry plan t (open_position plan pos v1),
        lookup-rest_entry id plan t (open_position plan pos v1),
      )
