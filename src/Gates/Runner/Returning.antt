-- ===== src/Gates/Runner/Returning.antt =====
-- The runner returns on a catalog whose dependencies descend, and what it returns.
use crypto_bot_quant.Base.{
  suc, zero, ℕ, ◌<◌, String, Option, none, some, List, [], ◌∷◌, ◌≡◌, refl, arith, All, All-map,
  Option-cases, inl, inr,
}
use crypto_bot_quant.Base.Result.{Exc, Result, ok, >>=-returns}
use crypto_bot_quant.Base.Dict.{Dict, lookup}
use crypto_bot_quant.Gates.Runner.{
  GateVerdict, Criterion, GateRunResult, GateSpec, GateRow, Progress, resolve, conclude,
  evaluate_new, evaluate, run, fresh_progress,
}
use crypto_bot_quant.Gates.Runner.Verdicts.{IsSolution, fresh-IsConsistent, evaluate-IsSound}

-- The dependencies of every gate have a smaller rank: there is no cycle.
abbrev pub IsRanked : Dict GateSpec → (String → ℕ) → Type 0
IsRanked catalog rank =
    (g : String) (spec : GateSpec)
    → lookup g catalog ≡ some spec
    → All (λ d. rank d < rank g) spec.depends_on

resolve-returns :
    (ev : String → Progress → Result (GateRunResult × Progress)) (deps : List String)
    (st : Progress)
    → All (λ d. (st : Progress) → (p : GateRunResult × Progress) × (ev d st ≡ ok p)) deps
    → (p : List String × Progress) × (resolve ev deps st ≡ ok p)
unfolding resolve
resolve-returns ev [] st h = (([], st), refl)
resolve-returns ev (d ∷ deps) st h =
    let (first, e1) = h.0 st in
    let (rest, e2) = resolve-returns ev deps first.1 h.1 in
    >>=-returns (ev d st) _ first e1 (>>=-returns (resolve ev deps first.1) _ rest e2 (_, refl))

module _ (catalog : Dict GateSpec) (check : String → Option (Result (List Criterion)))
    (shown : Exc → String) (write_report : GateRunResult → String) where
  evaluate_new-returns :
      (rank : String → ℕ) (n : ℕ) (g : String) (st : Progress) (o : Option GateSpec)
      → IsRanked catalog rank
      → lookup g catalog ≡ o
      → rank g < suc n
      → ((d : String) (st : Progress)
          → rank d < n
          → (p : GateRunResult × Progress) × (evaluate catalog check shown write_report n d st
              ≡ ok p))
      → (p : GateRunResult × Progress) × (evaluate_new catalog check shown write_report
            (λ deps. resolve (evaluate catalog check shown write_report n) deps st)
            g
            st
            o
          ≡ ok p)
  unfolding evaluate_new
  evaluate_new-returns rank n g st none r e h ih = (_, refl)
  evaluate_new-returns rank n g st (some spec) r e h ih =
      let ev = evaluate catalog check shown write_report n in
      let (q, e1) = resolve-returns ev spec.depends_on st (
        All-map (λ d. rank d < rank g)
          (λ d. (st : Progress) → (p : GateRunResult × Progress) × (ev d st ≡ ok p)) spec.depends_on
          (λ d l st. ih d st (omega (arith, l, h))) (r g spec e)) in
      (conclude catalog check shown write_report g spec q, rw e1 refl)

  pub evaluate-returns :
      (rank : String → ℕ) (n : ℕ) (g : String) (st : Progress)
      → IsRanked catalog rank
      → rank g < n
      → (p : GateRunResult × Progress) × (evaluate catalog check shown write_report n g st ≡ ok p)
  unfolding evaluate
  evaluate-returns rank zero g st r h = absurd (omega (arith, h))
  evaluate-returns rank (suc n) g st r h = elim (Option-cases (lookup g st.cache)) [
    | inr (result, e) ↦ ((result, st), rw (e, evaluate) refl)
    | inl e ↦
        let (p, e1) =
          evaluate_new-returns rank n g st (lookup g catalog) r refl h
            (λ d st' l. evaluate-returns rank n d st' r l) in
        (p, rw (e, evaluate) e1)
  ]

  -- On a catalog without cycles the run of a gate returns, and with the verdict that the rule of the
  -- gates gives it: an unknown gate is not run, a gate with a dependency that does not pass is
  -- blocked, and any other has the verdict of its check. The limit is above the rank of the gate.
  pub run_obeys_rule :
      (v : String → GateVerdict) (rank : String → ℕ) (limit : ℕ) (g : String) (rows : List GateRow)
      → IsSolution catalog check v
      → IsRanked catalog rank
      → rank g < limit
      → (p : GateRunResult × Progress) × (run catalog check shown write_report limit g rows ≡ ok p)
        × (p.0.overall ≡ v g)
  unfolding run
  run_obeys_rule v rank limit g rows s r h =
      let start = fresh_progress rows in
      let (p, e) = evaluate-returns rank limit g start r h in
      (
        p,
        e,
        (evaluate-IsSound catalog check shown write_report v limit s g start p
            (fresh-IsConsistent v rows) e).0,
      )
