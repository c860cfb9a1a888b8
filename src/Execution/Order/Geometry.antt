-- ===== src/Execution/Order/Geometry.antt =====
-- What a built bracket went through: the symbol's steps and minima, and the values of the build.
use crypto_bot_quant.Base.{Bool, true, false, not, String, Option, ◌≡◌, ◌∙◌, ◌||◌, arith}
use crypto_bot_quant.Base.Result.{ok}
use crypto_bot_quant.Base.Flow.{Ensures, next, next-of-run, call-then, guard-then}
use crypto_bot_quant.Base.Float.{Float, le, lt, nought, ◌*◌}
use crypto_bot_quant.Exchange.Metadata.{VerifiedSpec, number_field, qty_step_field}
use crypto_bot_quant.Ranking.Candidate.{Candidate}
use crypto_bot_quant.Risk.Manager.Defs.{RiskDecision, round_step}
use crypto_bot_quant.Execution.Config.{ExecutionPolicyConfig}
use crypto_bot_quant.Execution.Ownership.{OwnershipPolicy}
use crypto_bot_quant.Execution.Order.Defs.{OrderPlan}
use crypto_bot_quant.Execution.Order.Build.{
  BuildResult, built, failed, resolve_style, entry_type, entry_price, assemble, build_flow, build,
}

module _ {W : Type 0} ⦃f : Float W⦄ where
  pub record Built (cfg : ExecutionPolicyConfig W) (p : OwnershipPolicy) (c : Candidate W)
      (d : RiskDecision W) (spec : VerifiedSpec W) (style : Option String)
      (made : OrderPlan W × OwnershipPolicy) : Type 0 where
    pub tick : W
    pub step : W
    pub min_order_size : W
    pub min_notional : W
    pub qty : W
    pub price : W
    pub approved : (not d.approved || le d.qty nought) ≡ false
    pub tick_size : number_field spec.fields "tick_size" ≡ ok tick
    pub qty_step : qty_step_field spec.fields ≡ ok step
    pub order_minimum : number_field spec.fields "min_order_size" ≡ ok min_order_size
    pub notional_minimum : number_field spec.fields "min_notional" ≡ ok min_notional
    pub in_lots : round_step d.qty step ≡ ok qty
    pub large_enough : (le qty nought || lt qty min_order_size) ≡ false
    pub priced : entry_price c tick (entry_type (resolve_style cfg c style)) ≡ ok price
    pub worth_enough : lt (price * qty) min_notional ≡ false
    pub assembled : assemble cfg p c tick qty (resolve_style cfg c style) price ≡ ok made

  abbrev is_built : BuildResult W → Bool
  is_built (built plan) = true
  is_built (failed r) = false

  build_flow-Ensures :
      (cfg : ExecutionPolicyConfig W) (p : OwnershipPolicy) (c : Candidate W) (d : RiskDecision W)
      (spec : VerifiedSpec W) (style : Option String)
      → Ensures (λ r. is_built r.0 ≡ false) (λ _. Unit {0}) (build_flow cfg p c d spec style)
  unfolding build_flow
  build_flow-Ensures cfg p c d spec style = ground arith

  flow-Built :
      (cfg : ExecutionPolicyConfig W) (p : OwnershipPolicy) (c : Candidate W) (d : RiskDecision W)
      (spec : VerifiedSpec W) (style : Option String) {plan : OrderPlan W} {p' : OwnershipPolicy}
      → build_flow cfg p c d spec style ≡ next (built plan, p')
      → Built cfg p c d spec style (plan, p')
  unfolding build_flow
  flow-Built cfg p c d spec style {plan} {p'} h =
      let fields = spec.fields in
      let (e0, h0) = guard-then (not d.approved || le d.qty nought) _ _ h in
      let (tick, e1, h1) = call-then (number_field fields "tick_size") _ h0 in
      let (step, e2, h2) = call-then (qty_step_field fields) _ h1 in
      let (mos, e3, h3) = call-then (number_field fields "min_order_size") _ h2 in
      let (mn, e4, h4) = call-then (number_field fields "min_notional") _ h3 in
      let (qty, e5, h5) = call-then (round_step d.qty step) _ h4 in
      let (e6, h6) = guard-then (le qty nought || lt qty mos) _ _ h5 in
      let (price, e7, h7) =
        call-then (entry_price c tick (entry_type (resolve_style cfg c style))) _ h6 in
      let (e8, h8) = guard-then (lt (price * qty) mn) _ _ h7 in
      let (made, e9, h9) =
        call-then (assemble cfg p c tick qty (resolve_style cfg c style) price) _ h8 in
      record {
        tick = tick;
        step = step;
        min_order_size = mos;
        min_notional = mn;
        qty = qty;
        price = price;
        approved = e0;
        tick_size = e1;
        qty_step = e2;
        order_minimum = e3;
        notional_minimum = e4;
        in_lots = e5;
        large_enough = e6;
        priced = e7;
        worth_enough = e8;
        assembled = e9 ∙ ground arith;
      }

  pub build-Built :
      (cfg : ExecutionPolicyConfig W) (p : OwnershipPolicy) (c : Candidate W) (d : RiskDecision W)
      (spec : VerifiedSpec W) (style : Option String) {plan : OrderPlan W} {p' : OwnershipPolicy}
      → build cfg p c d spec style ≡ ok (built plan, p')
      → Built cfg p c d spec style (plan, p')
  unfolding build
  build-Built cfg p c d spec style h = flow-Built cfg p c d spec style (
      next-of-run (λ r. is_built r.0 ≡ false) (λ _. Unit {0}) (build_flow cfg p c d spec style)
        (build_flow-Ensures cfg p c d spec style) h (λ e. cc))
