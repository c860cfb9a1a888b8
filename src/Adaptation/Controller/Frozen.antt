-- ===== src/Adaptation/Controller/Frozen.antt =====
-- A frozen controller: what its calls keep, and that nothing it decides is applied.
use crypto_bot_quant.Base.{
  suc, Bool, true, false, String, Option, none, List, ◌≡◌, ap, ◌∙◌, sym, refl, arith, Bool-cases,
  inl, inr, Option-cases,
}
use crypto_bot_quant.Base.Result.{Result, ok, >>=-eq-ok, map-eq-ok, ok_inj}
use crypto_bot_quant.Base.Dict.{Dict}
use crypto_bot_quant.Base.Value.{Value}
use crypto_bot_quant.Base.Float.{Float}
use crypto_bot_quant.Adaptation.ActionSpace.{ValidationResult, validate}
use crypto_bot_quant.Adaptation.EnvelopeGuard.{enforce}
use crypto_bot_quant.Adaptation.Policy.{Context, Outcome, Policy}
use crypto_bot_quant.Adaptation.Controller.{
  frozen, LearnerController, ControllerDecision, effective_policy, with_effective_policy,
  learner_disabled, would_apply, action_mode, conclude, after_guard, after_validation, judge, run,
  freeze, record_outcome,
}

module _ {W P : Type 0} where
  with_effective_policy-keeps :
      (p : P) (c : LearnerController W P)
      → ((with_effective_policy p c).has_frozen ≡ c.has_frozen)
        × ((with_effective_policy p c).mode ≡ c.mode)
  unfolding with_effective_policy
  with_effective_policy-keeps p c = (ground arith, ground arith)

module _ {W P : Type 0} ⦃f : Float W⦄ (upper : String → String) (no_trade : List String) where
  conclude-not_applied :
      (ctx : Context W) (hard_blocked : Bool) (c : LearnerController W P) (clamped : List String)
      (guard : ValidationResult W)
      → would_apply c ≡ false
      → (conclude upper no_trade ctx hard_blocked c clamped guard).is_applied ≡ false
  unfolding conclude
  conclude-not_applied ctx hard_blocked c clamped guard h = rw h refl

  after_guard-not_applied :
      (ctx : Context W) (hard_blocked : Bool) (c : LearnerController W P) (clamped : List String)
      (guard : ValidationResult W)
      → would_apply c ≡ false
      → (after_guard upper no_trade ctx hard_blocked c clamped guard).is_applied ≡ false
  unfolding after_guard
  after_guard-not_applied ctx hard_blocked c clamped guard h =
      let kept = conclude-not_applied ctx hard_blocked c clamped guard h in ground arith

  after_validation-not_applied :
      (raw : Result (Dict (Value W))) (ctx : Context W) (active : Option (List String))
      (hard_blocked : Bool) (c : LearnerController W P) (val : ValidationResult W)
      (d : ControllerDecision W)
      → would_apply c ≡ false
      → after_validation upper no_trade raw ctx active hard_blocked c val ≡ ok d
      → d.is_applied ≡ false
  unfolding after_validation
  after_validation-not_applied raw ctx active hard_blocked c val d h =
      elim (Bool-cases val.is_rejected) [
        | inl n ↦ rw n (λ e. sym (ap (λ x. x.is_applied) (ok_inj e)))
        | inr n ↦ rw n (λ e.
            let (guard, _, same) = map-eq-ok _ (enforce raw active none val.action) e in
            sym (ap (λ x. x.is_applied) same)
            ∙ after_guard-not_applied ctx hard_blocked c val.clamped_fields guard h)
      ]

  -- A decision of a frozen controller is never applied.
  pub run-not_applied :
      {Blob : Type 0} (π : Policy W P Blob) (raw : Result (Dict (Value W))) (ctx : Context W)
      (active : Option (List String)) (hard_blocked : Bool) (c : LearnerController W P)
      (d : ControllerDecision W)
      → c.has_frozen ≡ true
      → (run π upper no_trade raw ctx active hard_blocked c).1 ≡ ok d
      → d.is_applied ≡ false
  unfolding run judge
  run-not_applied π raw ctx active hard_blocked c d h =
      let counted = record c { decision_count = suc c.decision_count } in
      elim (Bool-cases (learner_disabled counted)) [
        | inl e ↦ rw e (λ r. sym (ap (λ x. x.is_applied) (ok_inj r)))
        | inr e ↦ rw e (λ r.
            let (a, _, e1) = >>=-eq-ok (π.decide ctx (effective_policy counted)).1 _ r in
            let moded = record a { mode = action_mode counted } in
            let (val, _, e2) = >>=-eq-ok (validate true moded counted.bounds) _ e1 in
            after_validation-not_applied raw ctx active hard_blocked counted val d (ground arith)
              e2)
      ]

  pub run-keeps :
      {Blob : Type 0} (π : Policy W P Blob) (raw : Result (Dict (Value W))) (ctx : Context W)
      (active : Option (List String)) (hard_blocked : Bool) (c : LearnerController W P)
      → let after = (run π upper no_trade raw ctx active hard_blocked c).0 in
        (after.has_frozen ≡ c.has_frozen) × (after.mode ≡ c.mode)
  unfolding run
  run-keeps π raw ctx active hard_blocked c =
      let counted = record c { decision_count = suc c.decision_count } in
      let p = (π.decide ctx (effective_policy counted)).0 in
      elim (Bool-cases (learner_disabled counted)) [
        | inl e ↦ rw e (refl, refl)
        | inr e ↦ rw e (with_effective_policy-keeps p counted)
      ]

module _ {W P Blob : Type 0} ⦃f : Float W⦄ (π : Policy W P Blob) where
  -- Freezing freezes, also where reading the fallback raises.
  pub freeze-freezes :
      (read : String → Result Blob) (reason : String) (c : LearnerController W P)
      → let after = (freeze π read reason c).0 in (after.has_frozen ≡ true) × (after.mode ≡ frozen)
  unfolding freeze
  freeze-freezes read reason c = (ground arith, ground arith)

  pub record_outcome-keeps :
      (ctx : Context W) (d : ControllerDecision W) (outcome : Outcome W) (c : LearnerController W P)
      → let after = (record_outcome π ctx d outcome c).0 in
        (after.has_frozen ≡ c.has_frozen) × (after.mode ≡ c.mode)
  unfolding record_outcome
  record_outcome-keeps ctx d outcome c = elim (Option-cases d.action) [
    | inl e ↦ rw e (refl, refl)
    | inr (a, e) ↦
        let kept = with_effective_policy-keeps (π.update ctx a outcome (effective_policy c)).0 c in
        (ground arith, ground arith)
  ]
