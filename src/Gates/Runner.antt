-- ===== src/Gates/Runner.antt =====
-- src/gates/runner.py, result.py and the specifications of catalog.py: the gate runner. The checks
-- of the single gates, the text of an exception and the path of a report are arguments; the fuel
-- is the interpreter's recursion limit, and running out of it raises.
pub mod Verdicts
pub mod Returning
pub mod Upstream
use Prim.Native.String as Text
use crypto_bot_quant.Base.{
  suc, zero, ℕ, Bool, true, false, not, String, Option, none, some, List, [], ◌∷◌, ◌++◌, map,
  if◌then◌else◌, str_eq, all, elem, select,
}
use crypto_bot_quant.Base.Result.{Exc, recursion_error, Result, ok, raised, ◌>>=◌}
use crypto_bot_quant.Base.Dict.{Dict, lookup, insert, contains, keys}

pub data GateVerdict : Type 0 where
  pass fail blocked not_run : GateVerdict

abbrev pub verdict_value : GateVerdict → String
verdict_value pass = "PASS"
verdict_value fail = "FAIL"
verdict_value blocked = "BLOCKED"
verdict_value not_run = "NOT_RUN"

abbrev pub is_pass : GateVerdict → Bool
is_pass pass = true
is_pass _ = false

pub record Criterion : Type 0 where
  pub id : String
  pub status : String
  pub detail : String

-- `Criterion.passed`
abbrev pub has_passed : Criterion → Bool
has_passed c = str_eq c.status "PASS"

pub record GateRunResult : Type 0 where
  pub gate_id : String
  pub overall : GateVerdict
  pub criteria : List Criterion
  pub report_path : String
  pub note : String

pub record GateSpec : Type 0 where
  pub gate_id : String
  pub name : String
  pub phase : String
  pub depends_on : List String
  pub blocks_live : String
  pub pass_condition : String
  pub remediation_steps : List String
  pub rerun_job : String

pub record RemediationAction : Type 0 where
  pub gate_id : String
  pub step_index : ℕ
  pub description : String
  pub recommended_job : Option String

-- A persisted run: the row of the result and the rows of its remediation.
pub record GateRow : Type 0 where
  pub gate_id : String
  pub status : GateVerdict
  pub criteria : List Criterion
  pub failure_reason : Option String
  pub report_path : String
  pub actions : List RemediationAction

-- The results of the gates evaluated so far, and the rows written.
pub record Progress : Type 0 where
  pub cache : Dict GateRunResult
  pub rows : List GateRow

-- An empty cache beside these rows.
abbrev pub fresh_progress : List GateRow → Progress
fresh_progress rows = record { cache = []; rows = rows }

-- `", ".join(xs)`
abbrev pub join : List String → String
join [] = ""
join (x ∷ []) = x
join (x ∷ (y ∷ ys)) = let rest = join (y ∷ ys) in Text.◌++◌ x (Text.◌++◌ ", " rest)

-- `str(xs)` of texts without quotes or backslashes.
abbrev pub list_text : List String → String
list_text xs = Text.◌++◌ "[" (Text.◌++◌ (join (map (λ s. Text.◌++◌ "'" (Text.◌++◌ s "'")) xs)) "]")

-- `s or None`
abbrev pub or_none : String → Option String
or_none s = if str_eq s "" then none else some s

-- The actions of the steps, from an index on.
unfoldable pub step_actions : GateSpec → ℕ → List String → List RemediationAction
step_actions spec index [] = []
step_actions spec index (step ∷ steps) =
    record {
      gate_id = spec.gate_id;
      step_index = index;
      description = step;
      recommended_job = or_none spec.rerun_job;
    }
    ∷ step_actions spec (suc index) steps

-- The actions of a row that does not pass.
unfoldable pub remediation : GateSpec → List String → List RemediationAction
remediation spec [] = step_actions spec 0 spec.remediation_steps
remediation spec (b ∷ blocking) =
    record {
      gate_id = spec.gate_id;
      step_index = 0;
      description = Text.◌++◌ "Resolve upstream gate(s) first: " (join (b ∷ blocking));
      recommended_job = some "run_upstream_gates";
    }
    ∷ step_actions spec 1 spec.remediation_steps

module _ (write_report : GateRunResult → String) where
  -- `_persist`, and the result with the path of its report.
  unfoldable pub persist :
      GateSpec → GateRunResult → List String → Progress → GateRunResult × Progress
  persist spec result blocking st =
      let path = write_report result in
      let row : GateRow = record {
        gate_id = spec.gate_id;
        status = result.overall;
        criteria = result.criteria;
        failure_reason = or_none result.note;
        report_path = path;
        actions = if is_pass result.overall then [] else remediation spec blocking;
      } in
      (record result { report_path = path }, record st { rows = st.rows ++ (row ∷ []) })

  -- A result that goes into the cache.
  abbrev pub remember : String → GateRunResult × Progress → GateRunResult × Progress
  remember gate_id (result, st) = (result, record st { cache = insert gate_id result st.cache })

abbrev pub plain_result : String → GateVerdict → String → GateRunResult
plain_result gate_id verdict note = record {
  gate_id = gate_id;
  overall = verdict;
  criteria = [];
  report_path = "";
  note = note;
}

-- What the check of a gate says: no check, an exception, or its criteria.
unfoldable pub checked : (Exc → String) → String → Option (Result (List Criterion)) → GateRunResult
checked shown gate_id none =
    plain_result gate_id not_run
      (Text.◌++◌ "no check implemented for " (Text.◌++◌ gate_id " (introduced after Phase 1)"))
checked shown gate_id (some (raised e)) =
    plain_result gate_id fail (Text.◌++◌ "gate check raised: " (shown e))
checked shown gate_id (some (ok criteria)) =
    record (plain_result gate_id (if all has_passed criteria then pass else fail) (
      if all has_passed criteria
      then ""
      else Text.◌++◌ "failed criteria: "
          (list_text (map (λ c. c.id) (select (λ c. not (has_passed c)) criteria))))) {
            criteria = criteria;
          }

-- The dependencies that do not pass, each with its verdict, after the evaluation of all.
unfoldable pub resolve :
    (String → Progress → Result (GateRunResult × Progress))
    → List String
    → Progress
    → Result (List String × Progress)
resolve evaluate [] st = ok ([], st)
resolve evaluate (dep ∷ deps) st = do
  (result, st1) ← evaluate dep st
  (blocking, st2) ← resolve evaluate deps st1
  let entry = Text.◌++◌ dep (Text.◌++◌ "=" (verdict_value result.overall))
  ok (if is_pass result.overall then blocking else entry ∷ blocking, st2)

module _ (catalog : Dict GateSpec) (check : String → Option (Result (List Criterion)))
    (shown : Exc → String) (write_report : GateRunResult → String) where
  -- The verdict once the dependencies are resolved.
  unfoldable pub conclude : String → GateSpec → List String × Progress → GateRunResult × Progress
  conclude gate_id spec ([], st) =
      remember write_report gate_id
        (persist write_report spec (checked shown gate_id (check gate_id)) [] st)
  conclude gate_id spec (b ∷ blocking, st) = remember write_report gate_id (
      persist write_report spec
        (plain_result spec.gate_id blocked
          (Text.◌++◌ "blocked by upstream gate(s): " (list_text (b ∷ blocking))))
        (b ∷ blocking) st)

  -- The evaluation of a gate that is not in the cache, given how its dependencies are resolved.
  unfoldable pub evaluate_new :
      (List String → Result (List String × Progress))
      → String
      → Progress
      → Option GateSpec
      → Result (GateRunResult × Progress)
  evaluate_new resolved gate_id st none =
      ok (remember write_report gate_id (plain_result gate_id not_run "unknown gate id", st))
  evaluate_new resolved gate_id st (some spec) =
      resolved spec.depends_on >>= λ r. ok (conclude gate_id spec r)

  -- `_evaluate`
  unfoldable pub evaluate : ℕ → String → Progress → Result (GateRunResult × Progress)
  evaluate zero gate_id st = raised recursion_error
  evaluate (suc n) gate_id st =
      let resolved = λ (deps : List String). resolve (evaluate n) deps st in
      elim (lookup gate_id st.cache) [
        | some result ↦ ok (result, st)
        | none ↦ evaluate_new resolved gate_id st (lookup gate_id catalog)
      ]

  -- `run`
  unfoldable pub run : ℕ → String → List GateRow → Result (GateRunResult × Progress)
  run limit gate_id rows = evaluate limit gate_id (fresh_progress rows)

  -- The results of the gates in this order, with one cache.
  unfoldable pub evaluate_each : ℕ → List String → Progress → Result (List GateRunResult × Progress)
  evaluate_each limit [] st = ok ([], st)
  evaluate_each limit (g ∷ gs) st = do
    (result, st1) ← evaluate limit g st
    (results, st2) ← evaluate_each limit gs st1
    ok (result ∷ results, st2)

-- The gates seen and the gates in order, in the visit of a catalog.
abbrev pub Visit : Type 0
Visit = List String × List String

-- The visits of the gates that the catalog has.
unfoldable pub visit_all :
    Dict GateSpec → (String → Visit → Result Visit) → List String → Visit → Result Visit
visit_all catalog visit [] v = ok v
visit_all catalog visit (g ∷ gs) v =
    let rest = visit_all catalog visit gs in
    if contains g catalog then visit g v >>= rest else rest v

abbrev pub depends_on : Dict GateSpec → String → List String
depends_on catalog g = elim (lookup g catalog) [ none ↦ [] | some spec ↦ spec.depends_on ]

-- `visit`
unfoldable pub visit : Dict GateSpec → ℕ → String → Visit → Result Visit
visit catalog zero g v = raised recursion_error
visit catalog (suc n) g (seen, order) =
    let below = visit_all catalog (visit catalog n) (depends_on catalog g) in
    if elem g seen
    then ok (seen, order)
    else below (g ∷ seen, order) >>= λ v. ok (v.0, v.1 ++ (g ∷ []))

-- `_topological_order`
unfoldable pub topological_order : Dict GateSpec → ℕ → Result (List String)
topological_order catalog limit =
    visit_all catalog (visit catalog limit) (keys catalog) ([], []) >>= λ v. ok v.1

module _ (catalog : Dict GateSpec) (check : String → Option (Result (List Criterion)))
    (shown : Exc → String) (write_report : GateRunResult → String) where
  unfoldable pub run_all : ℕ → List GateRow → Result (List GateRunResult × Progress)
  run_all limit rows = do
    order ← topological_order catalog limit
    evaluate_each catalog check shown write_report limit order (fresh_progress rows)
