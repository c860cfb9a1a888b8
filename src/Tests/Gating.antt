-- ===== src/Tests/Gating.antt =====
-- The gates at a catalog of two.
use crypto_bot_quant.Base.{
  ℕ, ◌<◌, Bool, true, false, String, Option, none, some, List, [], ◌∷◌, ◌≡◌, ◌∙◌, refl, subst,
  arith, str_eq, if◌then◌else◌, All,
}
use crypto_bot_quant.Base.Result.{Exc, Result, ok}
use crypto_bot_quant.Base.Dict.{Dict, lookup}
use crypto_bot_quant.Gates.Runner.{GateSpec, Criterion, GateRunResult, Progress, pass, run}
use crypto_bot_quant.Gates.Runner.Returning.{IsRanked, run_obeys_rule}
use crypto_bot_quant.Gates.Runner.Upstream.{
  reference, reference-IsSolution, direct, run_equals_recursion, passed_needs-Upstream,
}

abbrev infra : GateSpec
infra = record {
  gate_id = "INFRA";
  name = "Infrastructure";
  phase = "1";
  depends_on = [];
  blocks_live = "true";
  pass_condition = "";
  remediation_steps = "start the services" ∷ [];
  rerun_job = "";
}

abbrev coverage : GateSpec
coverage = record infra {
  gate_id = "DATA-COV";
  name = "Data coverage";
  depends_on = "INFRA" ∷ [];
  remediation_steps = "download the gaps" ∷ [];
}

abbrev catalog : Dict GateSpec
catalog = ("DATA-COV", coverage) ∷ ("INFRA", infra) ∷ []

abbrev passing : String → Option (Result (List Criterion))
passing g = some (ok (record { id = "up"; status = "PASS"; detail = "" } ∷ []))

abbrev no_text : Exc → String
no_text e = ""

abbrev no_path : GateRunResult → String
no_path r = ""

abbrev rank : String → ℕ
rank g = if str_eq g "DATA-COV" then 1 else 0

abbrev Descends : ℕ → Option GateSpec → Type 0
Descends n none = Unit
Descends n (some spec) = All (λ d. rank d < n) spec.depends_on

descends :
    (a b : Bool) (spec : GateSpec)
    → (if a then some coverage else if b then some infra else none) ≡ some spec
    → Descends (if a then 1 else 0) (some spec)
descends true b spec h = subst (Descends 1) h (ground arith, tt)
descends false true spec h = subst (Descends 0) h tt
descends false false spec h = cc

catalog-IsRanked : IsRanked catalog rank
unfolding lookup
catalog-IsRanked g spec h = descends (str_eq g "DATA-COV") (str_eq g "INFRA") spec h

rank-below : (g : String) → rank g < 2
rank-below g = ground arith

run_obeys_rule_example :
    (p : GateRunResult × Progress) × (run catalog passing no_text no_path 2 "DATA-COV" [] ≡ ok p)
    × (p.0.overall ≡ reference catalog passing 2 "DATA-COV")
run_obeys_rule_example =
    run_obeys_rule catalog passing no_text no_path (reference catalog passing 2) rank 2 "DATA-COV"
      [] (reference-IsSolution catalog passing rank 2 catalog-IsRanked rank-below) catalog-IsRanked
      (rank-below "DATA-COV")

run_equals_recursion_example :
    (p : GateRunResult × Progress) × (run catalog passing no_text no_path 2 "DATA-COV" [] ≡ ok p)
    × (p.0.overall ≡ reference catalog passing 2 "DATA-COV")
run_equals_recursion_example =
    run_equals_recursion catalog passing no_text no_path rank 2 "DATA-COV" [] catalog-IsRanked
      rank-below

coverage_rule : reference catalog passing 2 "DATA-COV" ≡ pass
unfolding lookup
coverage_rule = refl

coverage_found : lookup "DATA-COV" catalog ≡ some coverage
unfolding lookup
coverage_found = refl

coverage_run :
    (p : GateRunResult × Progress) × (run catalog passing no_text no_path 2 "DATA-COV" [] ≡ ok p)
    × (p.0.overall ≡ pass)
coverage_run =
    let (p, e, same) =
      run_equals_recursion catalog passing no_text no_path rank 2 "DATA-COV" [] catalog-IsRanked
        rank-below in
    (p, e, same ∙ coverage_rule)

passed_needs-Upstream_example :
    (q : GateRunResult × Progress) × (run catalog passing no_text no_path 2 "INFRA" [] ≡ ok q)
    × (q.0.overall ≡ pass)
passed_needs-Upstream_example =
    passed_needs-Upstream catalog passing no_text no_path rank 2 "INFRA" "DATA-COV" [] []
      coverage_run.0 catalog-IsRanked rank-below (direct coverage coverage_found refl)
      coverage_run.1 coverage_run.2
