-- ===== src/Risk/Breakers/Clear.antt =====
-- When the breakers let an entry through, and that they always reach a verdict.
use crypto_bot_quant.Base.{
  Bool, true, false, String, Option, none, some, ◌≡◌, ◌↔◌, ◌&&◌, ◌||◌, arith, refl, not, is_some,
}
use crypto_bot_quant.Base.Int.{leb_ℤ}
use crypto_bot_quant.Base.Result.{Result, ok, raised, raises}
use crypto_bot_quant.Base.Flow.{Ensures, next, fails}
use crypto_bot_quant.Base.Dict.{get_or}
use crypto_bot_quant.Base.Float.{Float, IsOrdered, ◌-◌, le, lt, div, nought}
use crypto_bot_quant.Risk.Config.{RiskConfig}
use crypto_bot_quant.Risk.Breakers.{
  BreakerInputs, untripped, loss_frac, daily_loss_frac, drawdown_frac, weekly_loss_frac,
  funding_frac, symbol_breaker, book_breakers, evaluate,
}

module _ {W : Type 0} ⦃f : Float W⦄ where
  -- The fraction is computed, and does not reach the limit.
  abbrev pub not_reached : Result W → W → Bool
  not_reached (ok x) limit = not (le limit x)
  not_reached (raised e) limit = false

  -- No loss on this symbol reaches the per-symbol limit.
  abbrev pub symbol_not_reached : RiskConfig W → BreakerInputs W → Option String → Bool
  symbol_not_reached cfg inp none = true
  symbol_not_reached cfg inp (some s) =
      not (lt nought inp.equity)
      || not_reached (loss_frac (get_or s nought inp.per_symbol_pnl) inp.equity)
          cfg.breakers.per_symbol_loss_limit

  pub record IsBookClear (cfg : RiskConfig W) (killed : Bool) (inp : BreakerInputs W) : Type 0 where
    pub alive : killed ≡ false
    pub reconciled : (cfg.breakers.require_reconciled && not inp.reconciled) ≡ false
    pub daily : not_reached (daily_loss_frac inp) cfg.envelope.daily_loss_limit ≡ true
    pub drawdown : not_reached (drawdown_frac inp) cfg.envelope.max_drawdown_limit ≡ true
    pub streak : leb_ℤ cfg.breakers.consecutive_loss_limit inp.consecutive_losses ≡ false
    pub weekly : not_reached (weekly_loss_frac inp) cfg.breakers.weekly_loss_limit ≡ true
    pub funding : not_reached (funding_frac inp) cfg.breakers.funding_breaker_limit ≡ true

  -- Nothing blocks an entry on this symbol.
  pub record IsClear (cfg : RiskConfig W) (killed : Bool) (inp : BreakerInputs W)
      (symbol : Option String) : Type 0 where
    pub book : IsBookClear cfg killed inp
    pub this_symbol : symbol_not_reached cfg inp symbol ≡ true
    pub slippage : (cfg.breakers.abnormal_slippage_cooldown && inp.abnormal_slippage_active) ≡ false

  book_breakers_clear :
      (cfg : RiskConfig W) (killed : Bool) (inp : BreakerInputs W)
      → (book_breakers cfg killed inp ≡ next tt) ↔ IsBookClear cfg killed inp
  unfolding book_breakers
  book_breakers_clear cfg killed inp = (λ h. ground arith, λ h. ground arith)

  symbol_breaker_clear :
      (cfg : RiskConfig W) (inp : BreakerInputs W) (symbol : Option String)
      → (symbol_breaker cfg inp symbol ≡ next tt) ↔ (symbol_not_reached cfg inp symbol ≡ true)
  unfolding symbol_breaker
  symbol_breaker_clear cfg inp none = ground arith
  symbol_breaker_clear cfg inp (some s) = ground arith

  -- A breaker over the book trips with no symbol, the per-symbol one with the candidate's.
  pub book_breakers_trips :
      (cfg : RiskConfig W) (killed : Bool) (inp : BreakerInputs W)
      → Ensures
          (λ v. (v.tripped ≡ true) × (v.symbol ≡ none))
          (λ _. Unit {0})
          (book_breakers cfg killed inp)
  unfolding book_breakers
  book_breakers_trips cfg killed inp = ground arith

  pub symbol_breaker_trips :
      (cfg : RiskConfig W) (inp : BreakerInputs W) (symbol : Option String)
      → Ensures
          (λ v. (v.tripped ≡ true) × (v.symbol ≡ symbol) × (is_some symbol ≡ true))
          (λ _. Unit {0})
          (symbol_breaker cfg inp symbol)
  unfolding symbol_breaker
  symbol_breaker_trips cfg inp none = tt
  symbol_breaker_trips cfg inp (some s) = ground arith

  -- The breakers let an entry through exactly if no kill switch is engaged, the book is reconciled
  -- where that is required, no daily loss, drawdown, weekly loss or funding fraction reaches its
  -- limit, the loss streak is below its limit, no loss on the candidate's symbol reaches its limit,
  -- and no slippage cooldown is on. A fraction that is NaN reaches no limit, and none reaches a limit
  -- that is NaN.
  pub evaluate-IsClear_iff :
      (cfg : RiskConfig W) (killed : Bool) (inp : BreakerInputs W) (symbol : Option String)
      → (evaluate cfg killed inp symbol ≡ ok untripped) ↔ IsClear cfg killed inp symbol
  unfolding evaluate
  evaluate-IsClear_iff cfg killed inp symbol = (
    λ h. ground (
      arith,
      book_breakers_clear cfg killed inp,
      book_breakers_trips cfg killed inp,
      symbol_breaker_clear cfg inp symbol,
      symbol_breaker_trips cfg inp symbol,
    ),
    λ h. ground (
      arith,
      book_breakers_clear cfg killed inp,
      book_breakers_trips cfg killed inp,
      symbol_breaker_clear cfg inp symbol,
      symbol_breaker_trips cfg inp symbol,
    ),
  )

  -- A quotient by a number above zero does not raise.
  pub div_total : (a b : W) → IsOrdered W → le b nought ≡ false → div a b ≡ ok (f.quot a b)
  div_total a b o h = ground (arith, o.le-of-eq b nought)

  div_total_pos : (a b : W) → IsOrdered W → lt nought b ≡ true → div a b ≡ ok (f.quot a b)
  div_total_pos a b o h = ground (arith, o.le-of-eq b nought, o.le-not-lt b nought)

  daily_total : (inp : BreakerInputs W) → IsOrdered W → raises (daily_loss_frac inp) ≡ false
  unfolding daily_loss_frac
  daily_total inp o = ground (arith, div_total (f.neg inp.daily_pnl) inp.equity o)

  drawdown_total : (inp : BreakerInputs W) → IsOrdered W → raises (drawdown_frac inp) ≡ false
  unfolding drawdown_frac
  drawdown_total inp o = ground (arith, div_total (inp.peak_equity - inp.equity) inp.peak_equity o)

  weekly_total : (inp : BreakerInputs W) → IsOrdered W → raises (weekly_loss_frac inp) ≡ false
  unfolding weekly_loss_frac
  weekly_total inp o = ground (arith, div_total_pos (f.neg inp.weekly_pnl) inp.equity o)

  funding_total : (inp : BreakerInputs W) → IsOrdered W → raises (funding_frac inp) ≡ false
  unfolding funding_frac
  funding_total inp o = ground (arith, div_total_pos inp.cumulative_funding_paid inp.equity o)

  symbol_breaker_total :
      (cfg : RiskConfig W) (inp : BreakerInputs W) (symbol : Option String)
      → IsOrdered W
      → fails (symbol_breaker cfg inp symbol) ≡ false
  unfolding symbol_breaker
  symbol_breaker_total cfg inp none o = refl
  symbol_breaker_total cfg inp (some s) o =
      ground (arith, div_total_pos (f.neg (get_or s nought inp.per_symbol_pnl)) inp.equity o)

  book_breakers_total :
      (cfg : RiskConfig W) (killed : Bool) (inp : BreakerInputs W)
      → IsOrdered W
      → fails (book_breakers cfg killed inp) ≡ false
  unfolding book_breakers
  book_breakers_total cfg killed inp o =
      ground
        (arith, daily_total inp o, drawdown_total inp o, weekly_total inp o, funding_total inp o)

  -- No division of the breakers is by zero: on every account they reach a verdict.
  pub evaluate_total :
      (cfg : RiskConfig W) (killed : Bool) (inp : BreakerInputs W) (symbol : Option String)
      → IsOrdered W
      → raises (evaluate cfg killed inp symbol) ≡ false
  unfolding evaluate
  evaluate_total cfg killed inp symbol o =
      ground (arith, book_breakers_total cfg killed inp o, symbol_breaker_total cfg inp symbol o)
