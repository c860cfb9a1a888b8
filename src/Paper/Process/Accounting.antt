-- ===== src/Paper/Process/Accounting.antt =====
-- Every candidate of a batch is accounted for.
use Prim.Native.Nat.{◌+◌}
use crypto_bot_quant.Base.{ℕ, ◌<◌, ◌≡◌}
use crypto_bot_quant.Base.Result.{Result, ok, raised}
use crypto_bot_quant.Base.Float.{Float}
use crypto_bot_quant.Ranking.Candidate.{Candidate}
use crypto_bot_quant.Risk.Manager.Decide as Manager
use crypto_bot_quant.Paper.Session.{PaperSession, total_candidates}
use crypto_bot_quant.Paper.Exits.{Trading}

module _ {W S : Type 0} ⦃f : Float W⦄ where
  -- A step that returns has accounted for one more candidate, and one that raises for none.
  abbrev Accounts : PaperSession W → Result (Unit {0}) × Trading W S → Type 0
  Accounts s (ok u, st') = total_candidates st'.1 ≡ total_candidates s + 1
  Accounts s (raised x, st') = total_candidates st'.1 ≡ total_candidates s

  -- A batch of n candidates that returns has each of them among the trades or the rejected; one that
  -- raises has fewer.
  abbrev pub IsAccounted : ℕ → PaperSession W → Result (Unit {0}) × Trading W S → Type 0
  IsAccounted n s (ok u, st') = total_candidates st'.1 ≡ total_candidates s + n
  IsAccounted n s (raised x, st') = total_candidates st'.1 < total_candidates s + n
