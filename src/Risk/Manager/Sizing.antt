-- ===== src/Risk/Manager/Sizing.antt =====
-- The deterministic size of a candidate, and the caps that reduce it.
use crypto_bot_quant.Base.{not, none, [], ◌∷◌, ◌++◌, if◌then◌else◌}
use crypto_bot_quant.Base.Result.{Result, ok, raised}
use crypto_bot_quant.Base.Flow.{Flow, return_if, call, next, ◌>>=◌, ◌>>◌}
use crypto_bot_quant.Base.Float.{Float, ◌-◌, ◌*◌, le, gt, eq, div, min, max, nought, one}
use crypto_bot_quant.Ranking.Candidate.{Candidate}
use crypto_bot_quant.Risk.Config.{RiskConfig, beta_to_btc}
use crypto_bot_quant.Risk.Portfolio.{PortfolioState, heat, net_beta}
use crypto_bot_quant.Risk.Manager.Defs.{
  approve, resize, reject, RiskDecision, Sizing, refuse, leverage_capped, heat_capped, beta_capped,
  portfolio_heat_cap_full, net_beta_cap_full,
}

module _ {W : Type 0} ⦃f : Float W⦄ where
  -- Step 3: the risk that is put at stake, over the distance of the stop.
  unfoldable pub base_size : RiskConfig W → Candidate W → W → Result (Sizing W)
  base_size cfg c equity =
      let risk_pct =
        min cfg.base_risk_pct cfg.envelope.max_risk_pct_per_trade
        * min one (max nought c.risk_scale) in
      let stop_distance = c.entry_price * c.stop_frac in
      let target_risk = equity * risk_pct in
      elim (div target_risk stop_distance) [
        | ok q ↦ ok (record { qty = q; action = approve; reasons = [] })
        | raised e ↦ raised e
      ]

  -- Step 3a.
  unfoldable pub leverage_cap : RiskConfig W → Candidate W → W → Sizing W → Result (Sizing W)
  leverage_cap cfg c equity s =
      let max_notional = equity * cfg.envelope.max_leverage in
      if gt (s.qty * c.entry_price) max_notional
      then elim (div max_notional c.entry_price) [
        | ok q ↦
            ok (record { qty = q; action = resize; reasons = s.reasons ++ leverage_capped ∷ [] })
        | raised e ↦ raised e
      ]
      else ok s

  -- Step 3b.
  unfoldable pub heat_cap :
      RiskConfig W → Candidate W → PortfolioState W → Sizing W → Flow (RiskDecision W) (Sizing W)
  heat_cap cfg c port s = do
    existing_heat ← call (heat port)
    let remaining_heat = cfg.envelope.portfolio_heat_cap - existing_heat
    return_if (le remaining_heat nought) (refuse reject portfolio_heat_cap_full none)
    max_qty_heat ← call (div (remaining_heat * port.equity) (c.entry_price * c.stop_frac))
    next (
        if gt s.qty max_qty_heat
        then record { qty = max_qty_heat; action = resize; reasons = s.reasons ++ heat_capped ∷ [] }
        else s)

  -- Step 3c, where the signed net beta `b` of a unit of notional is not zero.
  unfoldable pub beta_cap_by :
      RiskConfig W
      → Candidate W
      → PortfolioState W
      → W
      → Sizing W
      → Flow (RiskDecision W) (Sizing W)
  beta_cap_by cfg c port b s = do
    current_net ← call (net_beta port)
    let cap = cfg.envelope.net_beta_btc_cap
    bound ←
        call (if gt b nought then div (cap - current_net) b else div (f.neg cap - current_net) b)
    return_if (le bound nought) (refuse reject (net_beta_cap_full current_net) none)
    max_qty_beta ← call (div bound c.entry_price)
    next (
        if gt s.qty max_qty_beta
        then record { qty = max_qty_beta; action = resize; reasons = s.reasons ++ beta_capped ∷ [] }
        else s)

  unfoldable pub beta_cap :
      RiskConfig W → Candidate W → PortfolioState W → Sizing W → Flow (RiskDecision W) (Sizing W)
  beta_cap cfg c port s = do
    b ← call (div (f.of_int c.side * beta_to_btc cfg c.symbol) port.equity)
    let capped = beta_cap_by cfg c port b s
    if not (eq b nought) then capped else next s
