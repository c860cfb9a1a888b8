-- ===== src/Risk/Manager/Approval.antt =====
-- What an approval went through: the steps of `evaluate` that led to it, with their values.
use crypto_bot_quant.Base.{Bool, true, ◌≡◌, arith}
use crypto_bot_quant.Base.Result.{ok}
use crypto_bot_quant.Base.Flow.{next, next-of-run, >>=-eq-next, call-eq-next, call}
use crypto_bot_quant.Base.Float.{Float}
use crypto_bot_quant.Exchange.Metadata.{MetadataConfig}
use crypto_bot_quant.Ranking.Candidate.{Candidate}
use crypto_bot_quant.Risk.Config.{RiskConfig}
use crypto_bot_quant.Risk.Manager.Defs.{AccountState, RiskDecision, Sizing}
use crypto_bot_quant.Risk.Manager.Sizing.{base_size, leverage_cap, heat_cap, beta_cap}
use crypto_bot_quant.Risk.Manager.Decide.{admit, confirm, quantise, evaluate_flow, evaluate}
use crypto_bot_quant.Risk.Manager.Refusal.{IsRefusal, evaluate_flow-IsRefusal}

module _ {W : Type 0} ⦃f : Float W⦄ where
  pub record Approval (cfg : RiskConfig W) (meta : MetadataConfig W) (killed : Bool)
      (c : Candidate W) (state : AccountState W) (d : RiskDecision W) : Type 0 where
    pub base : Sizing W
    pub levered : Sizing W
    pub heated : Sizing W
    pub hedged : Sizing W
    pub qty : W
    pub admitted : admit cfg killed c state ≡ next tt
    pub based : base_size cfg c state.portfolio.equity ≡ ok base
    pub leverage : leverage_cap cfg c state.portfolio.equity base ≡ ok levered
    pub heat : heat_cap cfg c state.portfolio levered ≡ next heated
    pub beta : beta_cap cfg c state.portfolio heated ≡ next hedged
    pub lots : quantise meta c hedged ≡ next qty
    pub confirmed : confirm cfg c state hedged qty ≡ next d

  flow-Approval :
      (cfg : RiskConfig W) (meta : MetadataConfig W) (killed : Bool) (c : Candidate W)
      (state : AccountState W) {d : RiskDecision W}
      → evaluate_flow cfg meta killed c state ≡ next d
      → Approval cfg meta killed c state d
  unfolding evaluate_flow
  flow-Approval cfg meta killed c state h =
      let (u, e0, h0) = >>=-eq-next (admit cfg killed c state) _ h in
      let (s0, e1, h1) = >>=-eq-next (call (base_size cfg c state.portfolio.equity)) _ h0 in
      let (s1, e2, h2) = >>=-eq-next (call (leverage_cap cfg c state.portfolio.equity s0)) _ h1 in
      let (s2, e3, h3) = >>=-eq-next (heat_cap cfg c state.portfolio s1) _ h2 in
      let (s3, e4, h4) = >>=-eq-next (beta_cap cfg c state.portfolio s2) _ h3 in
      let (q, e5, h5) = >>=-eq-next (quantise meta c s3) _ h4 in
      record {
        base = s0;
        levered = s1;
        heated = s2;
        hedged = s3;
        qty = q;
        admitted = e0;
        based = call-eq-next _ e1;
        leverage = call-eq-next _ e2;
        heat = e3;
        beta = e4;
        lots = e5;
        confirmed = h5;
      }

  pub evaluate-Approval :
      (cfg : RiskConfig W) (meta : MetadataConfig W) (killed : Bool) (c : Candidate W)
      (state : AccountState W) {d : RiskDecision W}
      → evaluate cfg meta killed c state ≡ ok d
      → d.approved ≡ true
      → Approval cfg meta killed c state d
  unfolding evaluate
  evaluate-Approval cfg meta killed c state {d} h a = flow-Approval cfg meta killed c state (
      next-of-run IsRefusal (λ d. d.approved ≡ true) (evaluate_flow cfg meta killed c state)
        (evaluate_flow-IsRefusal cfg meta killed c state) h
        (λ refusal. ground (arith, refusal.unapproved)))
