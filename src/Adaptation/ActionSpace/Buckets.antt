-- ===== src/Adaptation/ActionSpace/Buckets.antt =====
-- Which size bucket an action has after its validation by the controller.
use crypto_bot_quant.Base.{
  Bool, true, false, not, String, List, [], ◌≡◌, ◌⊎◌, refl, sym, subst, elem, is_empty, Bool-cases,
  inl, inr,
}
use crypto_bot_quant.Base.Result.{ok}
use crypto_bot_quant.Base.Flow.{
  Ensures, Ensures->>=, Ensures-then, Ensures-run, Ensures-call, return_if, call,
}
use crypto_bot_quant.Base.Dict.{keys}
use crypto_bot_quant.Base.Float.{Float, gt, one}
use crypto_bot_quant.Adaptation.ActionSpace.{
  Reason, BoundedAction, ActionBounds, rejected, unregistered, invalid_mode, ValidationResult,
  valid_modes, keys_outside, check_style, drop_strategies, clamp_nudges, has_bucket, choose_bucket,
  cap_bucket, check_weights, check_nudges, validate_flow, validate,
}

module _ {W : Type 0} ⦃f : Float W⦄ where
  -- The bucket is one of those declared, or a cap has set it to 1.
  abbrev pub IsBucket : ActionBounds W → W → Type 0
  IsBucket bounds b = (has_bucket b bounds.size_buckets ≡ true) ⊎ (b ≡ one)

  abbrev Accepts : ActionBounds W → ValidationResult W → Type 0
  Accepts bounds r = r.is_rejected ≡ false → IsBucket bounds r.action.size_bucket

  rejected-Accepts :
      (bounds : ActionBounds W) (b : Bool) (action : BoundedAction W) (clamped : List String)
      (reason : Reason W)
      → Ensures (Accepts bounds) (λ _. Unit {0}) (return_if b (rejected action clamped reason))
  rejected-Accepts bounds true action clamped reason = λ e. cc
  rejected-Accepts bounds false action clamped reason = tt

  choose_bucket-IsBucket :
      (bounds : ActionBounds W) (action : BoundedAction W) (clamped : List String)
      → Ensures
          (Accepts bounds)
          (λ r. IsBucket bounds r.0.size_bucket)
          (choose_bucket true bounds action clamped)
  unfolding choose_bucket
  choose_bucket-IsBucket bounds action clamped =
      elim (Bool-cases (has_bucket action.size_bucket bounds.size_buckets)) [
        | inl e ↦ rw e (inl e)
        | inr e ↦ rw e (λ e'. cc)
      ]

  cap_bucket-IsBucket :
      (bounds : ActionBounds W) (action : BoundedAction W) (clamped : List String)
      → IsBucket bounds action.size_bucket
      → IsBucket bounds (cap_bucket action clamped).0.size_bucket
  unfolding cap_bucket
  cap_bucket-IsBucket bounds action clamped h = elim (Bool-cases (gt action.size_bucket one)) [
    | inl e ↦ rw e (inr refl)
    | inr e ↦ rw e h
  ]

  drop_strategies-bucket :
      (bounds : ActionBounds W) (action : BoundedAction W) (clamped : List String)
      → (drop_strategies bounds action clamped).0.size_bucket ≡ action.size_bucket
  unfolding drop_strategies
  drop_strategies-bucket bounds action clamped =
      elim (Bool-cases (is_empty bounds.allowed_strategies)) [
        | inl e ↦ rw e refl
        | inr e ↦
            elim (Bool-cases
              (is_empty (keys_outside bounds.allowed_strategies action.strategy_weights))) [
                | inl e' ↦ rw (e, e') refl
                | inr e' ↦ rw (e, e') refl
              ]
      ]

  check_weights-IsBucket :
      (bounds : ActionBounds W) (action : BoundedAction W) (clamped : List String)
      → IsBucket bounds action.size_bucket
      → IsBucket bounds (check_weights bounds action clamped).0.size_bucket
  unfolding check_weights
  check_weights-IsBucket bounds action clamped h =
      subst (IsBucket bounds) (sym (drop_strategies-bucket bounds action clamped)) h

  check_nudges-IsBucket :
      (bounds : ActionBounds W) (action : BoundedAction W) (clamped : List String)
      → IsBucket bounds action.size_bucket
      → Ensures (Accepts bounds) (Accepts bounds) (check_nudges bounds action clamped)
  unfolding check_nudges
  check_nudges-IsBucket bounds action clamped h =
      let bad = keys_outside (keys bounds.registered_tunables) action.param_nudges in
      Ensures-then (Accepts bounds) (Accepts bounds)
        (return_if (not (is_empty bad)) (rejected action clamped (unregistered bad))) _
        (rejected-Accepts bounds (not (is_empty bad)) action clamped (unregistered bad))
        (λ _.
          Ensures-then (Accepts bounds) (Accepts bounds)
            (call (clamp_nudges bounds action.param_nudges)) _
            (Ensures-call (Accepts bounds) (clamp_nudges bounds action.param_nudges)) (λ n _. h))

  -- An action that the controller's validation, which rejects an undeclared bucket, does not reject
  -- has one of the declared buckets, or a cap has set its bucket to 1.
  pub validate-IsBucket :
      (action : BoundedAction W) (bounds : ActionBounds W) (r : ValidationResult W)
      → validate true action bounds ≡ ok r
      → r.is_rejected ≡ false
      → IsBucket bounds r.action.size_bucket
  unfolding validate
  validate-IsBucket action bounds r e =
      Ensures-run (Accepts bounds) (validate_flow true action bounds) flow e
    where
      styled : BoundedAction W × List String
      styled = check_style action

      flow : Ensures (Accepts bounds) (Accepts bounds) (validate_flow true action bounds)
      flow =
          Ensures-then (Accepts bounds) (Accepts bounds)
            (return_if (not (elem action.mode valid_modes))
              (rejected action [] (invalid_mode action.mode)))
            _
            (rejected-Accepts bounds (not (elem action.mode valid_modes)) action []
              (invalid_mode action.mode))
            (λ _.
              Ensures->>= (Accepts bounds) (λ c. IsBucket bounds c.0.size_bucket) (Accepts bounds)
                (choose_bucket true bounds styled.0 styled.1) _
                (choose_bucket-IsBucket bounds styled.0 styled.1)
                (λ c g.
                  let sized = cap_bucket c.0 c.1 in
                  let weighted = check_weights bounds sized.0 sized.1 in
                  check_nudges-IsBucket bounds weighted.0 weighted.1 (
                    check_weights-IsBucket bounds sized.0 sized.1
                      (cap_bucket-IsBucket bounds c.0 c.1 g))))
