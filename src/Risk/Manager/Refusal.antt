-- ===== src/Risk/Manager/Refusal.antt =====
-- A candidate that is not approved gets no size, and the breakers come first.
use crypto_bot_quant.Base.{Bool, true, false, none, some, ◌≡◌, ◌⊎◌, arith}
use crypto_bot_quant.Base.Result.{ok}
use crypto_bot_quant.Base.Flow.{
  Flow, Ensures, Ensures-then, Ensures-outcome, Ensures-call, call, ◌>>=◌,
}
use crypto_bot_quant.Base.Float.{Float, nought}
use crypto_bot_quant.Exchange.Metadata.{MetadataConfig}
use crypto_bot_quant.Ranking.Candidate.{Candidate}
use crypto_bot_quant.Risk.Config.{RiskConfig}
use crypto_bot_quant.Risk.Breakers as Breakers
use crypto_bot_quant.Risk.Breakers.Scope
use crypto_bot_quant.Risk.Breakers.{BreakerVerdict}
use crypto_bot_quant.Risk.Portfolio.{PortfolioState}
use crypto_bot_quant.Risk.Manager.Defs.{AccountState, reject, block, RiskDecision, Sizing}
use crypto_bot_quant.Risk.Manager.Sizing.{base_size, leverage_cap, heat_cap, beta_cap_by, beta_cap}
use crypto_bot_quant.Risk.Manager.Decide.{
  breaker_refusal, admit, check_liquidation, check_margin, confirm, quantise, evaluate_flow,
  evaluate,
}

module _ {W : Type 0} ⦃f : Float W⦄ where
  -- A refusal opens nothing.
  pub record IsRefusal (d : RiskDecision W) : Type 0 where
    pub unapproved : d.approved ≡ false
    pub action : (d.action ≡ reject) ⊎ (d.action ≡ block)
    pub qty : d.qty ≡ nought
    pub notional : d.notional ≡ nought
    pub risk_amount : d.risk_amount ≡ nought

  pub admit-IsRefusal :
      (cfg : RiskConfig W) (killed : Bool) (c : Candidate W) (state : AccountState W)
      → Ensures IsRefusal (λ _. Unit {0}) (admit cfg killed c state)
  unfolding admit
  admit-IsRefusal cfg killed c state = ground arith

  pub heat_cap-IsRefusal :
      (cfg : RiskConfig W) (c : Candidate W) (port : PortfolioState W) (s : Sizing W)
      → Ensures IsRefusal (λ _. Unit {0}) (heat_cap cfg c port s)
  unfolding heat_cap
  heat_cap-IsRefusal cfg c port s = ground arith

  pub beta_cap-IsRefusal :
      (cfg : RiskConfig W) (c : Candidate W) (port : PortfolioState W) (s : Sizing W)
      → Ensures IsRefusal (λ _. Unit {0}) (beta_cap cfg c port s)
  unfolding beta_cap beta_cap_by
  beta_cap-IsRefusal cfg c port s = ground arith

  pub quantise-IsRefusal :
      (meta : MetadataConfig W) (c : Candidate W) (s : Sizing W)
      → Ensures IsRefusal (λ _. Unit {0}) (quantise meta c s)
  unfolding quantise
  quantise-IsRefusal meta c s = ground arith

  pub confirm-IsRefusal :
      (cfg : RiskConfig W) (c : Candidate W) (state : AccountState W) (s : Sizing W) (qty : W)
      → Ensures IsRefusal (λ d. d.approved ≡ true) (confirm cfg c state s qty)
  unfolding confirm check_liquidation check_margin
  confirm-IsRefusal cfg c state s qty = ground arith

  pub evaluate_flow-IsRefusal :
      (cfg : RiskConfig W) (meta : MetadataConfig W) (killed : Bool) (c : Candidate W)
      (state : AccountState W)
      → Ensures IsRefusal (λ d. d.approved ≡ true) (evaluate_flow cfg meta killed c state)
  unfolding evaluate_flow
  evaluate_flow-IsRefusal cfg meta killed c state =
      step (admit cfg killed c state) _ (admit-IsRefusal cfg killed c state) λ _.
        step (call (base_size cfg c equity)) _ (Ensures-call IsRefusal (base_size cfg c equity))
          λ s0.
            step (call (leverage_cap cfg c equity s0)) _
              (Ensures-call IsRefusal (leverage_cap cfg c equity s0))
              λ s1. step (heat_cap cfg c port s1) _ (heat_cap-IsRefusal cfg c port s1) λ s2.
                step (beta_cap cfg c port s2) _ (beta_cap-IsRefusal cfg c port s2) λ s3.
                  step (quantise meta c s3) _ (quantise-IsRefusal meta c s3)
                    λ qty. confirm-IsRefusal cfg c state s3 qty
    where
      port : PortfolioState W
      port = state.portfolio

      equity : W
      equity = state.portfolio.equity

      step :
          {A : Type 0} (m : Flow (RiskDecision W) A)
          (k : A → Flow (RiskDecision W) (RiskDecision W))
          → Ensures IsRefusal (λ _. Unit {0}) m
          → ((a : A) → Ensures IsRefusal (λ d. d.approved ≡ true) (k a))
          → Ensures IsRefusal (λ d. d.approved ≡ true) (m >>= k)
      step m k h g = Ensures-then IsRefusal (λ d. d.approved ≡ true) m k h g

  -- A decision either approves, or is a rejection or a block of size zero that puts nothing at risk.
  pub evaluate-IsRefusal :
      (cfg : RiskConfig W) (meta : MetadataConfig W) (killed : Bool) (c : Candidate W)
      (state : AccountState W) {d : RiskDecision W}
      → evaluate cfg meta killed c state ≡ ok d
      → IsRefusal d ⊎ (d.approved ≡ true)
  unfolding evaluate
  evaluate-IsRefusal cfg meta killed c state h =
      Ensures-outcome IsRefusal (λ d. d.approved ≡ true) (evaluate_flow cfg meta killed c state)
        (evaluate_flow-IsRefusal cfg meta killed c state) h

  -- A tripped breaker decides: the decision is a refusal that carries the breaker's reason, and
  -- rejects the candidate if the breaker is about its symbol, and blocks all entries otherwise.
  pub evaluate_breaker :
      (cfg : RiskConfig W) (meta : MetadataConfig W) (killed : Bool) (c : Candidate W)
      (state : AccountState W) {v : BreakerVerdict W}
      → Breakers.evaluate cfg killed state.breakers (some c.symbol) ≡ ok v
      → v.tripped ≡ true
      → (evaluate cfg meta killed c state ≡ ok (breaker_refusal v))
        × IsRefusal (breaker_refusal v)
        × ((v.symbol ≡ some c.symbol) ⊎ (v.symbol ≡ none))
  unfolding evaluate admit
  evaluate_breaker cfg meta killed c state {v} h t = (
    rw (h, t),
    ground arith,
    ground (arith, Scope.evaluate_symbol cfg killed state.breakers (some c.symbol) {v = v} h),
  )
