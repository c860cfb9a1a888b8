-- ===== src/Gates/Runner/Upstream.antt =====
-- The cached runner against the plain recursion, and what a passed gate says of those upstream.
use crypto_bot_quant.Base.{
  suc, zero, ℕ, ◌<◌, Bool, true, false, String, Option, none, some, List, [], ◌∷◌, ◌≡◌, refl, sym,
  ap, ◌∙◌, arith, ◌&&◌, if◌then◌else◌, all, elem, eq_iff, str_eq, All, All-map, Bool-cases, inl,
  inr,
}
use crypto_bot_quant.Base.Result.{Exc, Result, ok, ok_inj}
use crypto_bot_quant.Base.Dict.{Dict, lookup}
use crypto_bot_quant.Gates.Runner.{
  GateVerdict, pass, blocked, not_run, is_pass, Criterion, GateRunResult, GateSpec, GateRow,
  Progress, run,
}
use crypto_bot_quant.Gates.Runner.Verdicts.{check_verdict, rule_of, rule, IsSolution}
use crypto_bot_quant.Gates.Runner.Returning.{IsRanked, run_obeys_rule}

all-cong :
    (v w : String → GateVerdict) (ds : List String)
    → All (λ d. v d ≡ w d) ds
    → all (λ d. is_pass (v d)) ds ≡ all (λ d. is_pass (w d)) ds
all-cong v w [] h = refl
all-cong v w (d ∷ ds) h =
    ap (λ x. is_pass x && all (λ d. is_pass (v d)) ds) h.0
    ∙ ap (λ b. is_pass (w d) && b) (all-cong v w ds h.1)

all-elem :
    (v : String → GateVerdict) (d : String) (ds : List String)
    → elem d ds ≡ true
    → all (λ d. is_pass (v d)) ds ≡ true
    → is_pass (v d) ≡ true
all-elem v d [] h k = cc
all-elem v d (x ∷ ds) h k = elim (Bool-cases (str_eq d x)) [
  | inl e ↦ rw ((eq_iff d x).0 e) (ground arith)
  | inr e ↦ all-elem v d ds (ground arith) (ground arith)
]

pass-of-is_pass : (x : GateVerdict) → is_pass x ≡ true → x ≡ pass
pass-of-is_pass x h = ground arith

if-passes : (b : Bool) (own : GateVerdict) → (if b then own else blocked) ≡ pass → b ≡ true
if-passes true own h = refl
if-passes false own h = cc

module _ (catalog : Dict GateSpec) (check : String → Option (Result (List Criterion))) where
  -- The plain recursion, which evaluates a gate anew for each of its dependents.
  abbrev pub reference : ℕ → String → GateVerdict
  reference zero g = not_run
  reference (suc n) g = rule catalog check (reference n) g

  rule-cong :
      (v w : String → GateVerdict) (own : GateVerdict) (o : Option GateSpec)
      → ((spec : GateSpec) → o ≡ some spec → All (λ d. v d ≡ w d) spec.depends_on)
      → rule_of v own o ≡ rule_of w own o
  rule-cong v w own none h = refl
  rule-cong v w own (some spec) h = rw (all-cong v w spec.depends_on (h spec refl)) refl

  reference-stable :
      (rank : String → ℕ) (n m : ℕ) (g : String)
      → IsRanked catalog rank
      → rank g < n
      → rank g < m
      → reference n g ≡ reference m g
  reference-stable rank zero m g r h k = absurd (omega (arith, h))
  reference-stable rank (suc n) zero g r h k = absurd (omega (arith, k))
  reference-stable rank (suc n) (suc m) g r h k =
      rule-cong (reference n) (reference m) (check_verdict (check g)) (lookup g catalog) (λ spec e.
        All-map (λ d. rank d < rank g) (λ d. reference n d ≡ reference m d) spec.depends_on
          (λ d l. reference-stable rank n m d r (omega (arith, l, h)) (omega (arith, l, k)))
          (r g spec e))

  pub reference-IsSolution :
      (rank : String → ℕ) (limit : ℕ)
      → IsRanked catalog rank
      → ((g : String) → rank g < limit)
      → IsSolution catalog check (reference limit)
  reference-IsSolution rank limit r h g =
      let l = h g in reference-stable rank limit (suc limit) g r l (omega (arith, l))

  -- A gate that another one depends on, directly or not.
  pub data Upstream : String → String → Type 0 where
    direct :
        {d g : String} (spec : GateSpec)
        → lookup g catalog ≡ some spec
        → elem d spec.depends_on ≡ true
        → Upstream d g
    further : {d e g : String} → Upstream d e → Upstream e g → Upstream d g

  pass-Upstream :
      (v : String → GateVerdict) {d g : String}
      → IsSolution catalog check v
      → Upstream d g
      → v g ≡ pass
      → v d ≡ pass
  pass-Upstream v {d = d} {g = g} s (direct spec e m) h =
      let ruled = sym (s g ∙ ap (rule_of v (check_verdict (check g))) e) ∙ h in
      pass-of-is_pass (v d) (
        all-elem v d spec.depends_on m
          (if-passes (all (λ x. is_pass (v x)) spec.depends_on) (check_verdict (check g)) ruled))
  pass-Upstream v s (further u w) h = pass-Upstream v s u (pass-Upstream v s w h)

module _ (catalog : Dict GateSpec) (check : String → Option (Result (List Criterion)))
    (shown : Exc → String) (write_report : GateRunResult → String) where
  -- The runner, which evaluates each gate once and remembers it, gives the verdict of the plain
  -- recursion that evaluates a gate anew for each dependent, on a catalog without cycles whose ranks
  -- are below the limit.
  pub run_equals_recursion :
      (rank : String → ℕ) (limit : ℕ) (g : String) (rows : List GateRow)
      → IsRanked catalog rank
      → ((g : String) → rank g < limit)
      → (p : GateRunResult × Progress) × (run catalog check shown write_report limit g rows ≡ ok p)
        × (p.0.overall ≡ reference catalog check limit g)
  run_equals_recursion rank limit g rows r h =
      run_obeys_rule catalog check shown write_report (reference catalog check limit) rank limit g
        rows (reference-IsSolution catalog check rank limit r h) r (h g)

  -- A gate that passes has every gate upstream of it passing, however far: each of their runs, from
  -- whatever rows, returns and passes. The catalog is without cycles, with ranks below the limit.
  pub passed_needs-Upstream :
      (rank : String → ℕ) (limit : ℕ) (d g : String) (rows rows' : List GateRow)
      (p : GateRunResult × Progress)
      → IsRanked catalog rank
      → ((g : String) → rank g < limit)
      → Upstream catalog check d g
      → run catalog check shown write_report limit g rows ≡ ok p
      → p.0.overall ≡ pass
      → (q : GateRunResult × Progress) × (run catalog check shown write_report limit d rows' ≡ ok q)
        × (q.0.overall ≡ pass)
  passed_needs-Upstream rank limit d g rows rows' p r h u e passes =
      let v = reference catalog check limit in
      let solves = reference-IsSolution catalog check rank limit r h in
      let (p1, e1, same) =
        run_obeys_rule catalog check shown write_report v rank limit g rows solves r (h g) in
      let (q, e2, other) =
        run_obeys_rule catalog check shown write_report v rank limit d rows' solves r (h d) in
      let root = sym same ∙ ap (λ x. x.0.overall) (ok_inj (sym e1 ∙ e)) ∙ passes in
      (q, e2, other ∙ pass-Upstream catalog check v solves u root)
