-- ===== src/Gates/Runner/Verdicts.antt =====
-- The verdicts that the runner gives, against the rule of the gates without cache and database.
use crypto_bot_quant.Base.{
  suc, zero, ℕ, Bool, true, false, String, Option, none, some, List, [], ◌∷◌, ◌≡◌, refl, sym, ap,
  ◌∙◌, subst, arith, ◌&&◌, if◌then◌else◌, str_eq, eq_iff, all, is_empty, Bool-cases, Option-cases,
  inl, inr, map,
}
use crypto_bot_quant.Base.Result.{Exc, Result, ok, raised, >>=-eq-ok, ok_inj}
use crypto_bot_quant.Base.Dict.{Dict, lookup, insert, lookup-insert}
use crypto_bot_quant.Gates.Runner.{
  GateVerdict, pass, fail, blocked, not_run, is_pass, Criterion, has_passed, GateRunResult,
  GateSpec, GateRow, Progress, persist, plain_result, checked, resolve, conclude, evaluate_new,
  evaluate, evaluate_each, run_all, topological_order, fresh_progress,
}

if-is_empty :
    {A : Type 0} (b : Bool) (x : A) (xs : List A)
    → is_empty (if b then xs else x ∷ xs) ≡ (b && is_empty xs)
if-is_empty true x xs = refl
if-is_empty false x xs = refl

-- The verdict of a check.
abbrev pub check_verdict : Option (Result (List Criterion)) → GateVerdict
check_verdict none = not_run
check_verdict (some (raised e)) = fail
check_verdict (some (ok criteria)) = if all has_passed criteria then pass else fail

-- The verdict of a gate with this specification and this verdict of its check.
abbrev pub rule_of : (String → GateVerdict) → GateVerdict → Option GateSpec → GateVerdict
rule_of v own none = not_run
rule_of v own (some spec) = if all (λ d. is_pass (v d)) spec.depends_on then own else blocked

module _ (catalog : Dict GateSpec) (check : String → Option (Result (List Criterion))) where
  -- The rule of the gates: an unknown gate is not run, a gate with a dependency that does not pass
  -- is blocked, and any other has the verdict of its check.
  abbrev pub rule : (String → GateVerdict) → String → GateVerdict
  rule v g = rule_of v (check_verdict (check g)) (lookup g catalog)

  -- An assignment of verdicts that obeys the rule.
  abbrev pub IsSolution : (String → GateVerdict) → Type 0
  IsSolution v = (g : String) → v g ≡ rule v g

-- Every cached result has the verdict of the assignment.
abbrev pub IsConsistent : (String → GateVerdict) → Progress → Type 0
IsConsistent v st = (g : String) (r : GateRunResult) → lookup g st.cache ≡ some r → r.overall ≡ v g

-- An evaluation that gives the verdicts of the assignment and keeps the cache consistent.
abbrev pub IsSound :
    (String → GateVerdict) → (String → Progress → Result (GateRunResult × Progress)) → Type 0
IsSound v ev =
    (g : String) (st : Progress) (p : GateRunResult × Progress)
    → IsConsistent v st
    → ev g st ≡ ok p
    → (p.0.overall ≡ v g) × IsConsistent v p.1

resolve_sound :
    (v : String → GateVerdict) (ev : String → Progress → Result (GateRunResult × Progress))
    (deps : List String) (st : Progress) (p : List String × Progress)
    → IsSound v ev
    → IsConsistent v st
    → resolve ev deps st ≡ ok p
    → (is_empty p.0 ≡ all (λ d. is_pass (v d)) deps) × IsConsistent v p.1
unfolding resolve
resolve_sound v ev [] st p s c e =
    subst (λ (x : List String × Progress). (is_empty x.0 ≡ true) × IsConsistent v x.1) (ok_inj e)
      (refl, c)
resolve_sound v ev (d ∷ deps) st p s c e =
    let (first, e1, e2) = >>=-eq-ok (ev d st) _ e in
    let (same, c1) = s d st first c e1 in
    let (rest, e3, e4) = >>=-eq-ok (resolve ev deps first.1) _ e2 in
    let (empty, c2) = resolve_sound v ev deps first.1 rest s c1 e3 in
    subst
      (λ (x : List String × Progress).
        (is_empty x.0 ≡ all (λ d. is_pass (v d)) (d ∷ deps)) × IsConsistent v x.1)
      (ok_inj e4)
      (
        if-is_empty (is_pass first.0.overall) _ rest.0
            ∙ ap (λ u. is_pass u && is_empty rest.0) same
            ∙ ap (λ u. is_pass (v d) && u) empty,
        c2,
      )

pub fresh-IsConsistent :
    (v : String → GateVerdict) (rows : List GateRow) → IsConsistent v (fresh_progress rows)
unfolding lookup
fresh-IsConsistent v rows g r h = cc

-- A cache stays consistent when it gets a right verdict.
insert-IsConsistent :
    (v : String → GateVerdict) (g : String) (r : GateRunResult) (st : Progress)
    (rows : List GateRow)
    → IsConsistent v st
    → r.overall ≡ v g
    → IsConsistent v record { cache = insert g r st.cache; rows = rows }
insert-IsConsistent v g r st rows c h g' r' e =
    let read = sym (lookup-insert g g' r st.cache) ∙ e in
    elim (Bool-cases (str_eq g' g)) [
      | inl s ↦ ground (arith, eq_iff g' g)
      | inr s ↦ c g' r' (ground arith)
    ]

module _ (catalog : Dict GateSpec) (check : String → Option (Result (List Criterion)))
    (shown : Exc → String) (write_report : GateRunResult → String) where
  checked-verdict :
      (g : String) (o : Option (Result (List Criterion)))
      → (checked shown g o).overall ≡ check_verdict o
  unfolding checked
  checked-verdict g none = refl
  checked-verdict g (some (raised e)) = refl
  checked-verdict g (some (ok criteria)) = refl

  conclude_sound :
      (v : String → GateVerdict) (g : String) (spec : GateSpec) (p : List String × Progress)
      → IsSolution catalog check v
      → lookup g catalog ≡ some spec
      → is_empty p.0 ≡ all (λ d. is_pass (v d)) spec.depends_on
      → IsConsistent v p.1
      → let after = conclude catalog check shown write_report g spec p in
        (after.0.overall ≡ v g) × IsConsistent v after.1
  unfolding conclude persist
  conclude_sound v g spec ([], st) s e h c =
      let after = conclude catalog check shown write_report g spec ([], st) in
      let own = check_verdict (check g) in
      let ruled = s g ∙ ap (rule_of v own) e ∙ ap (λ u. if u then own else blocked) (sym h) in
      let same = checked-verdict g (check g) ∙ sym ruled in
      (same, insert-IsConsistent v g _ st after.1.rows c same)
  conclude_sound v g spec (b ∷ blocking, st) s e h c =
      let after = conclude catalog check shown write_report g spec (b ∷ blocking, st) in
      let own = check_verdict (check g) in
      let ruled = s g ∙ ap (rule_of v own) e ∙ ap (λ u. if u then own else blocked) (sym h) in
      (sym ruled, insert-IsConsistent v g _ st after.1.rows c (sym ruled))

  evaluate_new_sound :
      (v : String → GateVerdict) (resolved : List String → Result (List String × Progress))
      (g : String) (st : Progress) (o : Option GateSpec) (p : GateRunResult × Progress)
      → IsSolution catalog check v
      → ((deps : List String) (q : List String × Progress)
          → resolved deps ≡ ok q
          → (is_empty q.0 ≡ all (λ d. is_pass (v d)) deps) × IsConsistent v q.1)
      → IsConsistent v st
      → lookup g catalog ≡ o
      → evaluate_new catalog check shown write_report resolved g st o ≡ ok p
      → (p.0.overall ≡ v g) × IsConsistent v p.1
  unfolding evaluate_new
  evaluate_new_sound v resolved g st none p s h c e r =
      let same = sym (s g ∙ ap (rule_of v (check_verdict (check g))) e) in
      subst (λ (x : GateRunResult × Progress). (x.0.overall ≡ v g) × IsConsistent v x.1) (ok_inj r)
        (same, insert-IsConsistent v g (plain_result g not_run "unknown gate id") st st.rows c same)
  evaluate_new_sound v resolved g st (some spec) p s h c e r =
      let (q, e1, e2) = >>=-eq-ok (resolved spec.depends_on) _ r in
      let (empty, c1) = h spec.depends_on q e1 in
      subst (λ (x : GateRunResult × Progress). (x.0.overall ≡ v g) × IsConsistent v x.1) (ok_inj e2)
        (conclude_sound v g spec q s e empty c1)

  pub evaluate-IsSound :
      (v : String → GateVerdict) (n : ℕ)
      → IsSolution catalog check v
      → IsSound v (evaluate catalog check shown write_report n)
  unfolding evaluate
  evaluate-IsSound v zero s g st p c = λ e. cc
  evaluate-IsSound v (suc n) s g st p c = elim (Option-cases (lookup g st.cache)) [
    | inr (r, e1) ↦
        rw (e1, evaluate)
          (λ e.
            subst (λ (x : GateRunResult × Progress). (x.0.overall ≡ v g) × IsConsistent v x.1)
              (ok_inj e) (c g r e1, c))
    | inl e1 ↦
        rw (e1, evaluate)
          (evaluate_new_sound v
            (λ deps. resolve (evaluate catalog check shown write_report n) deps st) g st
            (lookup g catalog) p s
            (λ deps q.
              resolve_sound v (evaluate catalog check shown write_report n) deps st q
                (evaluate-IsSound v n s) c)
            c refl)
  ]

  evaluate_each_sound :
      (v : String → GateVerdict) (n : ℕ) (gs : List String) (st : Progress)
      (p : List GateRunResult × Progress)
      → IsSolution catalog check v
      → IsConsistent v st
      → evaluate_each catalog check shown write_report n gs st ≡ ok p
      → map (λ r. r.overall) p.0 ≡ map v gs
  unfolding evaluate_each
  evaluate_each_sound v n [] st p s c e = sym (ap (λ x. map (λ r. r.overall) x.0) (ok_inj e))
  evaluate_each_sound v n (g ∷ gs) st p s c e =
      let (first, e1, e2) = >>=-eq-ok (evaluate catalog check shown write_report n g st) _ e in
      let (same, c1) = evaluate-IsSound v n s g st first c e1 in
      let (rest, e3, e4) =
        >>=-eq-ok (evaluate_each catalog check shown write_report n gs first.1) _ e2 in
      let others = evaluate_each_sound v n gs first.1 rest s c1 e3 in
      sym (ap (λ x. map (λ r. r.overall) x.0) (ok_inj e4))
      ∙ ap (λ u. u ∷ map (λ r. r.overall) rest.0) same
      ∙ ap (λ us. v g ∷ us) others

  -- A run of all gates, which shares one cache, gives each gate in the order the verdict of the
  -- rule, for any assignment that obeys the rule.
  pub run_all_obeys_rule :
      (v : String → GateVerdict) (limit : ℕ) (rows : List GateRow) (order : List String)
      (p : List GateRunResult × Progress)
      → IsSolution catalog check v
      → topological_order catalog limit ≡ ok order
      → run_all catalog check shown write_report limit rows ≡ ok p
      → map (λ r. r.overall) p.0 ≡ map v order
  unfolding run_all
  run_all_obeys_rule v limit rows order p s e r =
      let (order1, e1, e2) = >>=-eq-ok (topological_order catalog limit) _ r in
      evaluate_each_sound v limit order (fresh_progress rows) p s (fresh-IsConsistent v rows)
        (rw (ok_inj (sym e ∙ e1)) e2)
