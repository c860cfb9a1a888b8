-- ===== src/Execution/Engine/Simulated.antt =====
-- The engine on the simulated venue: builder, venue and engine together.
use crypto_bot_quant.Base.{Bool, true, String, Option, some, ◌≡◌, ◌≢◌, arith, refl}
use crypto_bot_quant.Base.Result.{Result, ok, raised}
use crypto_bot_quant.Base.Float.{Float, IsOrdered, IsNumber, gt, nought}
use crypto_bot_quant.Exchange.Metadata.{MetadataConfig}
use crypto_bot_quant.Ranking.Candidate.{Candidate}
use crypto_bot_quant.Risk.Manager.Defs.{RiskDecision}
use crypto_bot_quant.Execution.Config.{ExecutionPolicyConfig}
use crypto_bot_quant.Execution.Ownership.{OwnershipPolicy}
use crypto_bot_quant.Execution.Order.{OrderPlan, has_exchange_side_stop}
use crypto_bot_quant.Execution.Order.Bracket.{build-IsBracket}
use crypto_bot_quant.Execution.Venue.{
  SimulatedVenue, Terms, has_stop, filled_qty, make_fill, make_position, place_bracket,
}
use crypto_bot_quant.Execution.Engine.{
  Venue, Abort, revalidate, Prepared, refused, ready, ExecutionResult, Request,
  position_without_exchange_side_stop, terms, prepare, conclude, outcome, place_plan, execute,
}
use crypto_bot_quant.Execution.Engine.Safety.{prepare-IsCleared}

module _ {W : Type 0} ⦃f : Float W⦄ where
  -- The simulated venue behind the engine's protocol: a placement never raises.
  unfoldable pub simulated : Venue W (SimulatedVenue W)
  simulated = record {
    place = λ plan t v. (ok (place_bracket plan t v).0, (place_bracket plan t v).1);
  }

  placed-stop :
      (plan : OrderPlan W) (t : Terms W) (v : SimulatedVenue W)
      → has_exchange_side_stop plan ≡ true
      → gt (filled_qty plan.entry t) nought ≡ true
      → has_stop (place_bracket plan t v).0.position ≡ true
  unfolding place_bracket make_position make_fill
  placed-stop plan t v h g = ground arith

  fill-filled :
      (plan : OrderPlan W) (t : Terms W) (v : SimulatedVenue W)
      → (place_bracket plan t v).0.fill.qty ≡ filled_qty plan.entry t
  unfolding place_bracket make_fill
  fill-filled plan t v = refl

  prepare-refused :
      (cfg : ExecutionPolicyConfig W) (meta : MetadataConfig W) (p : OwnershipPolicy)
      (killed : Bool) (c : Candidate W) (d : RiskDecision W) (style : Option String) {x : Abort W}
      {p' : OwnershipPolicy}
      → prepare cfg meta p killed c d style ≡ ok (refused x p')
      → x ≢ position_without_exchange_side_stop
  unfolding prepare revalidate
  prepare-refused cfg meta p killed c d style h e = ground arith

  conclude-unprotected :
      (plan : OrderPlan W) (t : Terms W) (v : SimulatedVenue W)
      → IsOrdered W
      → has_exchange_side_stop plan ≡ true
      → (conclude plan (place_bracket plan t v).0).reason ≡ some position_without_exchange_side_stop
      → ¬ (IsNumber (filled_qty plan.entry t))
  unfolding conclude
  conclude-unprotected plan t v o h e n = ground (
    arith,
    placed-stop plan t v h,
    fill-filled plan t v,
    o.le-of-not-lt (filled_qty plan.entry t) nought n (o.number-lit 0 0),
  )

  -- On the simulated venue a bracket of the builder never leaves a position unprotected: the engine
  -- reports a position without an exchange-side stop only if the filled quantity is NaN.
  pub execute-simulated_protected :
      (cfg : ExecutionPolicyConfig W) (meta : MetadataConfig W) (p : OwnershipPolicy)
      (killed : Bool) (c : Candidate W) (d : RiskDecision W) (q : Request W) (v : SimulatedVenue W)
      {r : ExecutionResult W} {p' : OwnershipPolicy}
      → IsOrdered W
      → (execute simulated cfg meta p killed c d q v).0 ≡ ok (r, p')
      → r.reason ≡ some position_without_exchange_side_stop
      → (plan : OrderPlan W) × (prepare cfg meta p killed c d q.entry_style ≡ ok (ready plan p'))
        × ¬ (IsNumber (filled_qty plan.entry (terms cfg c q)))
  unfolding execute place_plan simulated outcome
  execute-simulated_protected cfg meta p killed c d q v {r} {p'} o h e =
      go (prepare cfg meta p killed c d q.entry_style) refl
    where
      go :
          (x : Result (Prepared W))
          → prepare cfg meta p killed c d q.entry_style ≡ x
          → (plan : OrderPlan W) × (prepare cfg meta p killed c d q.entry_style
              ≡ ok (ready plan p'))
            × ¬ (IsNumber (filled_qty plan.entry (terms cfg c q)))
      go (raised x) e' = absurd (ground arith)
      go (ok (refused x p1)) e' =
          absurd (ground (arith, prepare-refused cfg meta p killed c d q.entry_style {x = x} e'))
      go (ok (ready plan p1)) e' =
          let cleared = prepare-IsCleared cfg meta p killed c d q.entry_style e' in
          let bracket = build-IsBracket cfg p c d cleared.spec q.entry_style cleared.bracket in
          (
            plan,
            ground arith,
            conclude-unprotected plan (terms cfg c q) v o bracket.stopped (ground arith),
          )
