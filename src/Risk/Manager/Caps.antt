-- ===== src/Risk/Manager/Caps.antt =====
-- The caps on the size: each of them can only reduce it, so the size that is left meets them all.
use crypto_bot_quant.Base.{
  Bool, true, false, not, ◌||◌, Option, none, some, ◌≡◌, sym, ap, ◌∙◌, ◌⊎◌, inl, inr, subst, arith,
  refl, if◌then◌else◌,
}
use crypto_bot_quant.Base.Result.{Result, ok, raised, map, ◌>>=◌}
use crypto_bot_quant.Base.Flow.{next}
use crypto_bot_quant.Base.Float.{Float, IsOrdered, ◌-◌, ◌*◌, lt, gt, eq, div, min, max, nought, one}
use crypto_bot_quant.Exchange.Metadata.{MetadataConfig, qty_step_field}
use crypto_bot_quant.Ranking.Candidate.{Candidate}
use crypto_bot_quant.Risk.Config.{RiskConfig, beta_to_btc}
use crypto_bot_quant.Risk.Portfolio.{PortfolioState, heat, net_beta}
use crypto_bot_quant.Risk.Manager.Defs.{AccountState, RiskDecision, Sizing, round_step}
use crypto_bot_quant.Risk.Manager.Sizing.{base_size, leverage_cap, heat_cap, beta_cap_by, beta_cap}
use crypto_bot_quant.Risk.Manager.Decide.{quantise, evaluate}
use crypto_bot_quant.Risk.Manager.Limits.{symbol_fields, confirm_qty}
use crypto_bot_quant.Risk.Manager.Approval.{evaluate-Approval}

module _ {W : Type 0} ⦃f : Float W⦄ where
  -- The bound is computed, and `q` is not above it; `none` is no bound.
  abbrev pub at_most : W → Result (Option W) → Bool
  at_most q (ok none) = true
  at_most q (ok (some m)) = not (lt m q)
  at_most q (raised e) = false

  -- A cap leaves the size, or puts a smaller one in its place.
  abbrev pub Reduces : W → W → Type 0
  Reduces q q' = (lt q' q ≡ true) ⊎ (q' ≡ q)

  at_most_reduced :
      (q q' : W) (bound : Result (Option W))
      → IsOrdered W
      → Reduces q q'
      → at_most q bound ≡ true
      → at_most q' bound ≡ true
  at_most_reduced q q' (raised e) o r h = h
  at_most_reduced q q' (ok none) o r h = refl
  at_most_reduced q q' (ok (some m)) o r h = ground (arith, o.lt_trans m q' q)

  -- The size that fills the heat which the open positions leave.
  abbrev pub heat_bound : RiskConfig W → Candidate W → PortfolioState W → Result (Option W)
  heat_bound cfg c port = do
    h ← heat port
    m ← div ((cfg.envelope.portfolio_heat_cap - h) * port.equity) (c.entry_price * c.stop_frac)
    ok (some m)

  -- The size that takes the net beta to the cap on the side of the candidate, if it has a beta.
  abbrev pub beta_bound : RiskConfig W → Candidate W → PortfolioState W → Result (Option W)
  beta_bound cfg c port = do
    b ← div (f.of_int c.side * beta_to_btc cfg c.symbol) port.equity
    let bounded = do
      n ← net_beta port
      room ←
          if gt b nought
          then div (cfg.envelope.net_beta_btc_cap - n) b
          else div (f.neg cfg.envelope.net_beta_btc_cap - n) b
      m ← div room c.entry_price
      ok (some m)
    if eq b nought then ok none else bounded

  heat_cap_lem :
      (cfg : RiskConfig W) (c : Candidate W) (port : PortfolioState W) (s : Sizing W) {t : Sizing W}
      → IsOrdered W
      → heat_cap cfg c port s ≡ next t
      → Reduces s.qty t.qty × (at_most t.qty (heat_bound cfg c port) ≡ true)
  unfolding heat_cap
  heat_cap_lem cfg c port s {t} o h = ground (arith, o.lt_irrefl t.qty)

  beta_cap_lem :
      (cfg : RiskConfig W) (c : Candidate W) (port : PortfolioState W) (s : Sizing W) {t : Sizing W}
      → IsOrdered W
      → beta_cap cfg c port s ≡ next t
      → Reduces s.qty t.qty × (at_most t.qty (beta_bound cfg c port) ≡ true)
  unfolding beta_cap beta_cap_by
  beta_cap_lem cfg c port s {t} o h = ground (arith, o.lt_irrefl t.qty)

  -- The leverage that a size takes is within the envelope, or the size is the largest that is.
  abbrev pub fits_leverage : RiskConfig W → Candidate W → W → W → Bool
  fits_leverage cfg c equity q =
      not (gt (q * c.entry_price) (equity * cfg.envelope.max_leverage))
      || at_most q (map some (div (equity * cfg.envelope.max_leverage) c.entry_price))

  -- The size that puts the configured risk at stake over the distance of the stop.
  abbrev pub risk_size : RiskConfig W → Candidate W → W → Result W
  risk_size cfg c equity =
      let share = min cfg.base_risk_pct cfg.envelope.max_risk_pct_per_trade in
      let scale = min one (max nought c.risk_scale) in
      div (equity * (share * scale)) (c.entry_price * c.stop_frac)

  -- That size, or the largest one within the leverage of the envelope if it takes more.
  abbrev pub leverage_size : RiskConfig W → Candidate W → W → Result W
  leverage_size cfg c equity = risk_size cfg c equity >>= λ q.
      if gt (q * c.entry_price) (equity * cfg.envelope.max_leverage)
      then div (equity * cfg.envelope.max_leverage) c.entry_price
      else ok q

  base_size-qty :
      (cfg : RiskConfig W) (c : Candidate W) (equity : W) {s : Sizing W}
      → base_size cfg c equity ≡ ok s
      → risk_size cfg c equity ≡ ok s.qty
  unfolding base_size
  base_size-qty cfg c equity h = ground arith

  leverage_cap-qty :
      (cfg : RiskConfig W) (c : Candidate W) (equity : W) (s : Sizing W) {t : Sizing W}
      → risk_size cfg c equity ≡ ok s.qty
      → leverage_cap cfg c equity s ≡ ok t
      → leverage_size cfg c equity ≡ ok t.qty
  unfolding leverage_cap
  leverage_cap-qty cfg c equity s {t} e h = rw e (capped t h)
    where
      capped :
          (t : Sizing W)
          → leverage_cap cfg c equity s ≡ ok t
          → (if gt (s.qty * c.entry_price) (equity * cfg.envelope.max_leverage)
              then div (equity * cfg.envelope.max_leverage) c.entry_price
              else ok s.qty)
            ≡ ok t.qty
      capped t h = ground arith

  leverage_cap_lem :
      (cfg : RiskConfig W) (c : Candidate W) (equity : W) (s : Sizing W) {t : Sizing W}
      → IsOrdered W
      → leverage_cap cfg c equity s ≡ ok t
      → fits_leverage cfg c equity t.qty ≡ true
  unfolding leverage_cap
  leverage_cap_lem cfg c equity s {t} o h = ground (arith, o.lt_irrefl t.qty)

  Reduces-trans : (q q' q'' : W) → IsOrdered W → Reduces q q' → Reduces q' q'' → Reduces q q''
  Reduces-trans q q' q'' o (inl l) (inl l') = inl (o.lt_trans q'' q' q l' l)
  Reduces-trans q q' q'' o (inl l) (inr e) = inl (subst (λ x. lt x q ≡ true) (sym e) l)
  Reduces-trans q q' q'' o (inr e) r = subst (λ x. Reduces x q'') e r

  -- The size of a decision before it is cut to whole lots, and what bounds it.
  pub record IsCapped (cfg : RiskConfig W) (meta : MetadataConfig W) (c : Candidate W)
      (port : PortfolioState W) (d : RiskDecision W) : Type 0 where
    pub size : W
    pub in_lots : (qty_step_field (symbol_fields meta c) >>= round_step size) ≡ ok d.qty
    pub levered : W
    pub leverage : leverage_size cfg c port.equity ≡ ok levered
    pub within_leverage : Reduces levered size
    pub fits : fits_leverage cfg c port.equity levered ≡ true
    pub within_heat : at_most size (heat_bound cfg c port) ≡ true
    pub within_beta : at_most size (beta_bound cfg c port) ≡ true

  quantise_lots :
      (meta : MetadataConfig W) (c : Candidate W) (s : Sizing W) {q : W}
      → quantise meta c s ≡ next q
      → (qty_step_field (symbol_fields meta c) >>= round_step s.qty) ≡ ok q
  unfolding quantise
  quantise_lots meta c s h = ground arith

  -- The size of an approved decision is, up to the cut to whole lots, within all three caps at once:
  -- no later cap undoes an earlier one. It is the size that the configured risk and the cap on the
  -- leverage give, or a smaller one, and it is not above the sizes that fill the heat and take the net
  -- beta to its cap; where one of those two sizes is NaN, no size is above it. The comparisons of
  -- floats obey the laws of the IEEE order.
  pub evaluate-IsCapped :
      (cfg : RiskConfig W) (meta : MetadataConfig W) (killed : Bool) (c : Candidate W)
      (state : AccountState W) {d : RiskDecision W}
      → IsOrdered W
      → evaluate cfg meta killed c state ≡ ok d
      → d.approved ≡ true
      → IsCapped cfg meta c state.portfolio d
  evaluate-IsCapped cfg meta killed c state {d} o h a =
      let r = evaluate-Approval cfg meta killed c state h a in
      let heat = heat_cap_lem cfg c state.portfolio r.levered o r.heat in
      let beta = beta_cap_lem cfg c state.portfolio r.heated o r.beta in
      record {
        size = r.hedged.qty;
        in_lots =
            quantise_lots meta c r.hedged r.lots
            ∙ ap ok (sym (confirm_qty cfg c state r.hedged r.qty r.confirmed).0);
        levered = r.levered.qty;
        fits = leverage_cap_lem cfg c state.portfolio.equity r.base o r.leverage;
        leverage =
            leverage_cap-qty cfg c state.portfolio.equity r.base
              (base_size-qty cfg c state.portfolio.equity r.based) r.leverage;
        within_leverage = Reduces-trans r.levered.qty r.heated.qty r.hedged.qty o heat.0 beta.0;
        within_heat =
            at_most_reduced r.heated.qty r.hedged.qty (heat_bound cfg c state.portfolio) o beta.0
              heat.1;
        within_beta = beta.1;
      }
