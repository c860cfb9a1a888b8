-- ===== src/Execution/Order/Bracket.antt =====
-- The bracket that the builder makes protects the position that its entry opens.
use crypto_bot_quant.Base.{true, false, not, String, Option, ◌≡◌, ◌≢◌, arith, All, is_some, ◌&&◌}
use crypto_bot_quant.Base.Result.{ok}
use crypto_bot_quant.Base.Float.{Float, ge}
use crypto_bot_quant.Exchange.Metadata.{VerifiedSpec}
use crypto_bot_quant.Ranking.Candidate.{Candidate}
use crypto_bot_quant.Risk.Manager.Defs.{RiskDecision}
use crypto_bot_quant.Execution.Config.{ExecutionPolicyConfig}
use crypto_bot_quant.Execution.Ownership.{OwnershipPolicy}
use crypto_bot_quant.Execution.Order.Defs.{Order, OrderPlan, has_exchange_side_stop, optional}
use crypto_bot_quant.Execution.Order.Build.{
  built, no_fixed_tp_frac, resolve_style, build_trailing, build_take_profit, assemble, build,
}
use crypto_bot_quant.Execution.Order.Geometry.{build-Built}

module _ {W : Type 0} ⦃f : Float W⦄ where
  -- The leg only closes the position: it is on the other side, for the same symbol and size.
  pub record Protects (plan : OrderPlan W) (o : Order W) : Type 0 where
    pub symbol : o.symbol ≡ plan.symbol
    pub qty : o.qty ≡ plan.qty
    pub reduces : o.is_reduce_only ≡ true
    pub side : o.side ≢ plan.entry.side

  pub record IsBracket (cfg : ExecutionPolicyConfig W) (c : Candidate W) (plan : OrderPlan W)
      : Type 0 where
    pub symbol : (plan.symbol ≡ c.symbol) × (plan.entry.symbol ≡ c.symbol)
    pub qty : plan.entry.qty ≡ plan.qty
    pub opens : plan.entry.is_reduce_only ≡ false
    pub stopped : has_exchange_side_stop plan ≡ true
    pub stop : All (Protects plan) (optional plan.stop)
    pub take_profit : All (Protects plan) (optional plan.take_profit)
    pub trailing : All (Protects plan) (optional plan.trailing)
    pub targets :
        is_some plan.take_profit ≡ (not (ge c.tp_frac no_fixed_tp_frac) && cfg.attach_take_profit)
    pub trails : ge c.tp_frac no_fixed_tp_frac ≡ true → is_some plan.trailing ≡ true

  assemble-IsBracket :
      (cfg : ExecutionPolicyConfig W) (p : OwnershipPolicy) (c : Candidate W) (tick qty : W)
      (style : String) (price : W) {plan : OrderPlan W} {p' : OwnershipPolicy}
      → assemble cfg p c tick qty style price ≡ ok (plan, p')
      → IsBracket cfg c plan
  unfolding assemble build_trailing build_take_profit
  assemble-IsBracket cfg p c tick qty style price h = ground arith

  -- A built bracket protects the position that its entry opens: it has a reduce-only stop, every
  -- exit leg is a reduce-only order on the other side for the same symbol and size, a take-profit
  -- is attached exactly if its target can be reached and the policy wants one, and an entry with no
  -- fixed take-profit has a trailing stop.
  pub build-IsBracket :
      (cfg : ExecutionPolicyConfig W) (p : OwnershipPolicy) (c : Candidate W) (d : RiskDecision W)
      (spec : VerifiedSpec W) (style : Option String) {plan : OrderPlan W} {p' : OwnershipPolicy}
      → build cfg p c d spec style ≡ ok (built plan, p')
      → IsBracket cfg c plan
  unfolding build
  build-IsBracket cfg p c d spec style h =
      let b = build-Built cfg p c d spec style h in
      assemble-IsBracket cfg p c b.tick b.qty (resolve_style cfg c style) b.price b.assembled
