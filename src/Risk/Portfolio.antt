-- ===== src/Risk/Portfolio.antt =====
-- src/risk/portfolio.py: the open positions that the risk manager reasons over.
use crypto_bot_quant.Base.{String, List, [], ◌∷◌, map, ℕ, length, count_if, str_eq, if◌then◌else◌}
use crypto_bot_quant.Base.Int.{ℤ}
use crypto_bot_quant.Base.Result.{Result, ok, ◌>>=◌}
use crypto_bot_quant.Base.Result
use crypto_bot_quant.Base.Float.{Float, ◌*◌, le, div, nought}

pub record Position (W : Type 0) : Type 0 where
  pub symbol : String
  pub side : ℤ
  pub qty : W
  pub entry_price : W
  pub risk_amount : W
  pub beta_to_btc : W
  pub regime : String

pub record PortfolioState (W : Type 0) : Type 0 where
  pub equity : W
  pub positions : List (Position W)

module _ {W : Type 0} where
  abbrev pub count : PortfolioState W → ℕ
  count p = length p.positions

  abbrev pub count_for_symbol : PortfolioState W → String → ℕ
  count_for_symbol p symbol = count_if (λ q. str_eq q.symbol symbol) p.positions

  abbrev pub count_for_regime : PortfolioState W → String → ℕ
  count_for_regime p regime = count_if (λ q. str_eq q.regime regime) p.positions

module _ {W : Type 0} ⦃f : Float W⦄ where
  unfoldable pub notional : Position W → W
  notional p = p.qty * p.entry_price

  unfoldable pub signed_beta_exposure : W → Position W → Result W
  unfolding notional
  signed_beta_exposure equity p =
      if le equity nought
      then ok nought
      else div (f.of_int p.side * p.beta_to_btc * notional p) equity

  -- The values that `sum` draws from the generator, in order.
  unfoldable pub exposures : W → List (Position W) → Result (List W)
  unfolding signed_beta_exposure
  exposures equity [] = ok []
  exposures equity (p ∷ ps) = do
    x ← signed_beta_exposure equity p
    xs ← exposures equity ps
    ok (x ∷ xs)

  unfoldable pub heat : PortfolioState W → Result W
  heat p =
      if le p.equity nought
      then ok nought
      else div (f.sum (map (λ q. q.risk_amount) p.positions)) p.equity

  unfoldable pub net_beta : PortfolioState W → Result W
  unfolding exposures
  net_beta p = Result.map f.sum (exposures p.equity p.positions)
