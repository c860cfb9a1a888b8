-- ===== src/Adaptation/Controller/Applied.antt =====
-- What a decision that is applied satisfies.
use crypto_bot_quant.Base.{
  suc, Bool, true, false, String, Option, none, some, List, [], ◌≡◌, ◌∙◌, sym, ap, subst, refl,
  arith, ◌&&◌, ◌||◌, is_empty, Bool-cases, inl, inr,
}
use crypto_bot_quant.Base.Result.{Result, ok, ok_inj, >>=-eq-ok, map-eq-ok}
use crypto_bot_quant.Base.Dict.{Dict}
use crypto_bot_quant.Base.Value.{Value}
use crypto_bot_quant.Base.Float.{Float, IsOrdered, gt, one}
use crypto_bot_quant.Adaptation.ActionSpace.{
  BoundedAction, ActionBounds, ValidationResult, validate,
}
use crypto_bot_quant.Adaptation.ActionSpace.Clamping.{AreRanges}
use crypto_bot_quant.Adaptation.ActionSpace.Bounds.{IsInBounds, validate-IsInBounds}
use crypto_bot_quant.Adaptation.ActionSpace.Buckets.{IsBucket, validate-IsBucket}
use crypto_bot_quant.Adaptation.EnvelopeGuard.{
  RiskEnvelope, cap_size, bad_strategies, forbidden_hit, enforce, load_envelope, capped_if, check,
}
use crypto_bot_quant.Adaptation.Policy.{Context, Policy}
use crypto_bot_quant.Adaptation.Controller.{
  LearnerController, ControllerDecision, is_live_bounded, is_no_trade_regime, effective_policy,
  learner_disabled, conclude, after_guard, after_validation, judge, run, action_mode, would_apply,
}

module _ {W : Type 0} ⦃f : Float W⦄ where
  -- What the validation passes.
  abbrev pub IsValid : ActionBounds W → BoundedAction W → Type 0
  IsValid bounds a = IsInBounds bounds a × IsBucket bounds a.size_bucket

  -- What both guards pass.
  abbrev pub IsGuarded : ActionBounds W → Option (List String) → BoundedAction W → Type 0
  IsGuarded bounds active a =
      IsValid bounds a
      × (is_empty (bad_strategies active a) ≡ true)
      × (is_empty (forbidden_hit a) ≡ true)

  capped_if-IsValid :
      (bounds : ActionBounds W) (b : Bool) (a : BoundedAction W) (clamped : List String)
      → IsOrdered W
      → IsValid bounds a
      → IsValid bounds (capped_if b (a, clamped)).0
  capped_if-IsValid bounds true a clamped o h =
      ((h.0.0, h.0.1, o.lt_irrefl one, h.0.3, h.0.4, h.0.5), inr refl)
  capped_if-IsValid bounds false a clamped o h = h

  cap_size-IsValid :
      (bounds : ActionBounds W) (env : RiskEnvelope W) (a : BoundedAction W)
      → IsOrdered W
      → IsValid bounds a
      → IsValid bounds (cap_size env a).0
  unfolding cap_size
  cap_size-IsValid bounds env a o h =
      let first = capped_if (gt a.size_bucket one) (a, []) in
      capped_if-IsValid bounds _ first.0 first.1 o
        (capped_if-IsValid bounds (gt a.size_bucket one) a [] o h)

  check-action :
      (active : Option (List String)) (a : BoundedAction W) (clamped : List String)
      → (check active a clamped).action ≡ a
  unfolding check
  check-action active a clamped = ground arith

  check-passed :
      (active : Option (List String)) (a : BoundedAction W) (clamped : List String)
      → (check active a clamped).is_rejected ≡ false
      → (is_empty (bad_strategies active a) ≡ true) × (is_empty (forbidden_hit a) ≡ true)
  unfolding check
  check-passed active a clamped h = ground arith

  enforce-IsGuarded :
      (bounds : ActionBounds W) (raw : Result (Dict (Value W))) (active : Option (List String))
      (a : BoundedAction W) (r : ValidationResult W)
      → IsOrdered W
      → IsValid bounds a
      → enforce raw active none a ≡ ok r
      → r.is_rejected ≡ false
      → IsGuarded bounds active r.action
  unfolding enforce
  enforce-IsGuarded bounds raw active a r o h e n =
      let (env, _, e') = >>=-eq-ok (load_envelope raw) _ e in
      let sized = cap_size env a in
      let same = ok_inj e' in
      let (no_bad, no_hit) =
        check-passed active sized.0 sized.1 (ap (λ x. x.is_rejected) same ∙ n) in
      subst (λ x. IsGuarded bounds active x)
        (sym (check-action active sized.0 sized.1) ∙ ap (λ x. x.action) same)
        (cap_size-IsValid bounds env a o h, no_bad, no_hit)

module _ {W P : Type 0} ⦃f : Float W⦄ (upper : String → String) (no_trade : List String) where
  -- What an applied decision of the controller carries.
  abbrev pub IsSafe :
      Context W
      → Option (List String)
      → Bool
      → LearnerController W P
      → ControllerDecision W
      → Type 0
  IsSafe ctx active hard_blocked c d =
      (is_live_bounded c.mode ≡ true)
      × (c.has_frozen ≡ false)
      × (a : BoundedAction W) × (d.action ≡ some a)
      × IsGuarded c.bounds active a
      × (a.take ≡ true
          → (hard_blocked ≡ false) × (is_no_trade_regime upper no_trade ctx.regime ≡ false))

  conclude-IsSafe :
      (ctx : Context W) (active : Option (List String)) (hard_blocked : Bool)
      (c : LearnerController W P) (clamped : List String) (guard : ValidationResult W)
      → IsGuarded c.bounds active guard.action
      → (conclude upper no_trade ctx hard_blocked c clamped guard).is_applied ≡ true
      → IsSafe ctx active hard_blocked c (conclude upper no_trade ctx hard_blocked c clamped guard)
  unfolding conclude
  conclude-IsSafe ctx active hard_blocked c clamped guard g h =
      let no_trade_now = is_no_trade_regime upper no_trade ctx.regime in
      elim (Bool-cases (would_apply c && (guard.action.take && (hard_blocked || no_trade_now)))) [
        | inl e ↦ ground arith
        | inr e ↦ (
          ground arith,
          ground arith,
          guard.action,
          rw e refl,
          g,
          λ t. (ground arith, ground arith),
        )
      ]

  after_guard-IsSafe :
      (ctx : Context W) (active : Option (List String)) (hard_blocked : Bool)
      (c : LearnerController W P) (clamped : List String) (guard : ValidationResult W)
      → (guard.is_rejected ≡ false → IsGuarded c.bounds active guard.action)
      → (after_guard upper no_trade ctx hard_blocked c clamped guard).is_applied ≡ true
      → IsSafe ctx active hard_blocked c
          (after_guard upper no_trade ctx hard_blocked c clamped guard)
  unfolding after_guard conclude
  after_guard-IsSafe ctx active hard_blocked c clamped guard g =
      elim (Bool-cases guard.is_rejected) [
        | inl e ↦ rw e (λ h. cc)
        | inr e ↦ rw e (conclude-IsSafe ctx active hard_blocked c clamped guard (g e))
      ]

  after_validation-IsSafe :
      (raw : Result (Dict (Value W))) (ctx : Context W) (active : Option (List String))
      (hard_blocked : Bool) (c : LearnerController W P) (val : ValidationResult W)
      (d : ControllerDecision W)
      → IsOrdered W
      → (val.is_rejected ≡ false → IsValid c.bounds val.action)
      → after_validation upper no_trade raw ctx active hard_blocked c val ≡ ok d
      → d.is_applied ≡ true
      → IsSafe ctx active hard_blocked c d
  unfolding after_validation
  after_validation-IsSafe raw ctx active hard_blocked c val d o g =
      elim (Bool-cases val.is_rejected) [
        | inl n ↦ rw n (λ e h. cc)
        | inr n ↦ rw n (λ e h.
            let (guard, passes, same) = map-eq-ok _ (enforce raw active none val.action) e in
            subst (IsSafe ctx active hard_blocked c) same (
              after_guard-IsSafe ctx active hard_blocked c val.clamped_fields guard
                (enforce-IsGuarded c.bounds raw active val.action guard o (g n) passes)
                (ap (λ x. x.is_applied) same ∙ h)))
      ]

  judge-IsSafe :
      (raw : Result (Dict (Value W))) (ctx : Context W) (active : Option (List String))
      (hard_blocked : Bool) (c : LearnerController W P) (a : BoundedAction W)
      (d : ControllerDecision W)
      → IsOrdered W
      → AreRanges c.bounds
      → judge upper no_trade raw ctx active hard_blocked c a ≡ ok d
      → d.is_applied ≡ true
      → IsSafe ctx active hard_blocked c d
  unfolding judge
  judge-IsSafe raw ctx active hard_blocked c a d o ranges e h =
      let moded = record a { mode = action_mode c } in
      let (val, valid, e1) = >>=-eq-ok (validate true moded c.bounds) _ e in
      after_validation-IsSafe raw ctx active hard_blocked c val d o
        (λ n. (
          validate-IsInBounds true moded c.bounds val o ranges valid n,
          validate-IsBucket moded c.bounds val valid n,
        ))
        e1 h

  -- A decision is applied only in the live mode of a controller that is not frozen. Its action has a
  -- known mode and execution style; a size bucket that is one of those declared, or that a cap has set
  -- to 1, and is not above 1; weights between the declared bounds, of allowed and of active
  -- strategies only, where those are declared and given; and nudges of registered tunables only,
  -- within their zones, and of no parameter of the risk envelope. If it takes the trade, the candidate is not
  -- hard-blocked and the regime is not a no-trade one. This is so whatever the policy decides. The
  -- ranges declared for the weights and the nudges are not empty, and the comparisons of floats obey
  -- the laws of the IEEE order.
  pub run_applied-IsSafe :
      {Blob : Type 0} (π : Policy W P Blob) (raw : Result (Dict (Value W))) (ctx : Context W)
      (active : Option (List String)) (hard_blocked : Bool) (c : LearnerController W P)
      (d : ControllerDecision W)
      → IsOrdered W
      → AreRanges c.bounds
      → (run π upper no_trade raw ctx active hard_blocked c).1 ≡ ok d
      → d.is_applied ≡ true
      → IsSafe ctx active hard_blocked c d
  unfolding run
  run_applied-IsSafe π raw ctx active hard_blocked c d o ranges =
      let counted = record c { decision_count = suc c.decision_count } in
      elim (Bool-cases (learner_disabled counted)) [
        | inl e ↦ rw e (λ r h. cc)
        | inr e ↦ rw e (λ r h.
            let (a, _, e1) = >>=-eq-ok (π.decide ctx (effective_policy counted)).1 _ r in
            judge-IsSafe raw ctx active hard_blocked counted a d o ranges e1 h)
      ]
