-- ===== src/Risk/Manager/Limits.antt =====
-- What the last steps of the decision check, as facts about the decision that is returned.
use crypto_bot_quant.Base.{Bool, true, false, not, Option, none, some, [], ◌≡◌, arith, refl}
use crypto_bot_quant.Base.Result.{Result, ok, raised, map, ◌>>=◌}
use crypto_bot_quant.Base.Flow.{next}
use crypto_bot_quant.Base.Dict.{Dict}
use crypto_bot_quant.Base.Value.{Value}
use crypto_bot_quant.Base.Float.{Float, ◌+◌, ◌*◌, lt, gt, le, div, nought}
use crypto_bot_quant.Exchange.Metadata.{MetadataConfig, find_spec, number_field}
use crypto_bot_quant.Ranking.Candidate.{Candidate}
use crypto_bot_quant.Risk.Config.{RiskConfig, beta_to_btc}
use crypto_bot_quant.Risk.Breakers.{liquidation_distance_ok, margin_available}
use crypto_bot_quant.Risk.Portfolio.{net_beta}
use crypto_bot_quant.Risk.Manager.Defs.{AccountState, RiskDecision, Sizing}
use crypto_bot_quant.Risk.Manager.Decide.{
  check_liquidation, check_margin, confirm, quantise, evaluate,
}
use crypto_bot_quant.Risk.Manager.Approval.{evaluate-Approval}

module _ {W : Type 0} ⦃f : Float W⦄ where
  abbrev pub symbol_fields : MetadataConfig W → Candidate W → Dict (Value W)
  symbol_fields meta c = elim (find_spec meta c.symbol) [ none ↦ [] | some spec ↦ spec.fields ]

  -- `r` is computed, and is not below (above) the limit.
  abbrev pub not_below : W → Result W → Bool
  not_below x (ok m) = not (lt x m)
  not_below x (raised e) = false

  abbrev pub not_above : Result W → W → Bool
  not_above (ok x) limit = not (gt x limit)
  not_above (raised e) limit = false

  abbrev pub far_from_liquidation : RiskConfig W → Candidate W → Option W → Result Bool
  far_from_liquidation cfg c none = ok true
  far_from_liquidation cfg c (some p) = liquidation_distance_ok cfg c.entry_price p c.side

  abbrev pub leaves_margin : RiskConfig W → W → W → Option W → Result Bool
  leaves_margin cfg notional equity none = ok true
  leaves_margin cfg notional equity (some free) =
      map (λ m. margin_available cfg m free equity) (div notional cfg.envelope.max_leverage)

  -- The figures of the decision belong together, and the last checks pass on them.
  pub record IsWithinLimits (cfg : RiskConfig W) (meta : MetadataConfig W) (c : Candidate W)
      (state : AccountState W) (d : RiskDecision W) : Type 0 where
    pub notional : d.notional ≡ d.qty * c.entry_price
    pub at_risk : d.risk_amount ≡ d.qty * (c.entry_price * c.stop_frac)
    pub leverage : div d.notional state.portfolio.equity ≡ ok d.leverage
    pub risk_pct : div d.risk_amount state.portfolio.equity ≡ ok d.risk_pct_used
    pub leverage_cap : gt d.leverage (cfg.envelope.max_leverage + f.lit 1 9) ≡ false
    pub risk_cap : gt d.risk_pct_used (cfg.envelope.max_risk_pct_per_trade + f.lit 1 9) ≡ false
    pub beta_cap :
        not_above
          (do
            net ← net_beta state.portfolio
            added ←
                div (f.of_int c.side * beta_to_btc cfg c.symbol * d.notional) state.portfolio.equity
            ok (f.abs (net + added)))
          (cfg.envelope.net_beta_btc_cap + f.lit 1 9)
        ≡ true
    pub positive : le d.qty nought ≡ false
    pub min_order_size :
        not_below d.qty (number_field (symbol_fields meta c) "min_order_size") ≡ true
    pub min_notional :
        not_below d.notional (number_field (symbol_fields meta c) "min_notional") ≡ true
    pub liquidation : far_from_liquidation cfg c state.liquidation_price ≡ ok true
    pub margin : leaves_margin cfg d.notional state.portfolio.equity state.free_margin ≡ ok true

  pub confirm_qty :
      (cfg : RiskConfig W) (c : Candidate W) (state : AccountState W) (s : Sizing W) (qty : W)
      {d : RiskDecision W}
      → confirm cfg c state s qty ≡ next d
      → (d.qty ≡ qty) × (d.action ≡ s.action)
  unfolding confirm
  confirm_qty cfg c state s qty h = ground arith

  liquidation_lem :
      (cfg : RiskConfig W) (c : Candidate W) (p : Option W)
      → check_liquidation cfg c p ≡ next tt
      → far_from_liquidation cfg c p ≡ ok true
  unfolding check_liquidation
  liquidation_lem cfg c none h = refl
  liquidation_lem cfg c (some p) h = ground arith

  margin_lem :
      (cfg : RiskConfig W) (notional equity : W) (free : Option W)
      → check_margin cfg notional equity free ≡ next tt
      → leaves_margin cfg notional equity free ≡ ok true
  unfolding check_margin
  margin_lem cfg notional equity none h = refl
  margin_lem cfg notional equity (some free) h = ground arith

  -- The figures of an approved decision belong together, and neither its leverage, nor its share of
  -- risk, nor the absolute net beta with it is above its cap plus 10^-9; its size is not at or below
  -- 0, its size and its notional are not below the minima of the symbol, and the liquidation distance
  -- and the free margin, where they are known, pass their checks. The caps on the heat and on the
  -- portfolio are not among these.
  pub evaluate-IsWithinLimits :
      (cfg : RiskConfig W) (meta : MetadataConfig W) (killed : Bool) (c : Candidate W)
      (state : AccountState W) {d : RiskDecision W}
      → evaluate cfg meta killed c state ≡ ok d
      → d.approved ≡ true
      → IsWithinLimits cfg meta c state d
  unfolding confirm quantise
  evaluate-IsWithinLimits cfg meta killed c state {d} h a =
      let r = evaluate-Approval cfg meta killed c state h a in lem r.hedged r.qty r.lots r.confirmed
    where
      lem :
          (s : Sizing W) (q : W)
          → quantise meta c s ≡ next q
          → confirm cfg c state s q ≡ next d
          → IsWithinLimits cfg meta c state d
      lem s q lots confirmed = ground (
        arith,
        liquidation_lem cfg c state.liquidation_price,
        margin_lem cfg (q * c.entry_price) state.portfolio.equity state.free_margin,
      )
