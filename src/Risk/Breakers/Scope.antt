-- ===== src/Risk/Breakers/Scope.antt =====
-- The scope of the per-symbol loss breaker.
use crypto_bot_quant.Base.{Bool, true, String, Option, none, some, ◌≡◌, ◌≢◌, ◌⊎◌, arith, eq_iff}
use crypto_bot_quant.Base.Result.{ok}
use crypto_bot_quant.Base.Flow.{next}
use crypto_bot_quant.Base.Dict.{Dict, get_or, insert, lookup-insert}
use crypto_bot_quant.Base.Float.{Float, nought}
use crypto_bot_quant.Risk.Config.{RiskConfig}
use crypto_bot_quant.Risk.Breakers.{
  BreakerInputs, BreakerVerdict, symbol_breaker, book_breakers, evaluate,
}
use crypto_bot_quant.Risk.Breakers.Clear.{book_breakers_trips, symbol_breaker_trips}

module _ {W : Type 0} ⦃f : Float W⦄ where
  get_or-insert_ne :
      (s t : String) (pnl : W) (d : Dict W)
      → t ≢ s
      → get_or t nought (insert s pnl d) ≡ get_or t nought d
  get_or-insert_ne s t pnl d ne = ground (arith, lookup-insert s t pnl d, eq_iff t s)

  -- One losing symbol does not halt another: the realised result of a symbol, whatever it is, does
  -- not change the verdict for a candidate on a different symbol.
  pub evaluate_other_symbol :
      (cfg : RiskConfig W) (killed : Bool) (inp : BreakerInputs W) (s t : String) (pnl : W)
      → t ≢ s
      → evaluate cfg killed
          (record inp { per_symbol_pnl = insert s pnl inp.per_symbol_pnl })
          (some t)
        ≡ evaluate cfg killed inp (some t)
  unfolding evaluate book_breakers symbol_breaker
  evaluate_other_symbol cfg killed inp s t pnl ne =
      rw (get_or-insert_ne s t pnl inp.per_symbol_pnl ne)

  -- A verdict that names a symbol names the candidate's, and is given only if no breaker over the
  -- whole book has tripped.
  pub evaluate_scoped :
      (cfg : RiskConfig W) (killed : Bool) (inp : BreakerInputs W) (symbol : Option String)
      {v : BreakerVerdict W} {s : String}
      → evaluate cfg killed inp symbol ≡ ok v
      → v.symbol ≡ some s
      → (symbol ≡ some s) × (v.tripped ≡ true) × (book_breakers cfg killed inp ≡ next tt)
  unfolding evaluate
  evaluate_scoped cfg killed inp symbol h e =
      ground (arith, book_breakers_trips cfg killed inp, symbol_breaker_trips cfg inp symbol)

  -- The symbol of a verdict is the candidate's or none.
  pub evaluate_symbol :
      (cfg : RiskConfig W) (killed : Bool) (inp : BreakerInputs W) (symbol : Option String)
      {v : BreakerVerdict W}
      → evaluate cfg killed inp symbol ≡ ok v
      → (v.symbol ≡ symbol) ⊎ (v.symbol ≡ none)
  unfolding evaluate
  evaluate_symbol cfg killed inp symbol h =
      ground (arith, book_breakers_trips cfg killed inp, symbol_breaker_trips cfg inp symbol)
