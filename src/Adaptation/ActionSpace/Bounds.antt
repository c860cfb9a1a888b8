-- ===== src/Adaptation/ActionSpace/Bounds.antt =====
-- What an action satisfies after its validation.
use crypto_bot_quant.Base.{
  Bool, true, false, not, String, List, [], ◌≡◌, refl, arith, elem, is_empty, All, subst,
  Bool-cases, inl, inr,
}
use crypto_bot_quant.Base.Result.{ok, Result-cases}
use crypto_bot_quant.Base.Flow.{
  Ensures, Ensures->>=, Ensures-run, Ensures-call-value, Ensures-unless, return_if, call,
}
use crypto_bot_quant.Base.Dict.{keys}
use crypto_bot_quant.Base.Float.{Float, IsOrdered, le, gt, one}
use crypto_bot_quant.Adaptation.ActionSpace.{
  BoundedAction, ActionBounds, rejected, unregistered, invalid_mode, ValidationResult, valid_modes,
  valid_exec_styles, keys_outside, check_style, drop_strategies, nearest_bucket, clamp_nudges,
  has_bucket, choose_bucket, cap_bucket, check_weights, check_nudges, validate_flow, validate,
}
use crypto_bot_quant.Adaptation.ActionSpace.Clamping.{
  HasKeysIn, drop_strategies-HasKeysIn, AreWithin, clamp_weights-AreWithin, clamp_weights-HasKeysIn,
  IsNudge, AreRanges, AreNudges, clamp_nudges-AreNudges,
}

module _ {W : Type 0} ⦃f : Float W⦄ where
  -- What the learner may change, and by how much.
  abbrev pub IsInBounds : ActionBounds W → BoundedAction W → Type 0
  IsInBounds bounds a =
      (elem a.mode valid_modes ≡ true)
      × (elem a.exec_style valid_exec_styles ≡ true)
      × (gt a.size_bucket one ≡ false)
      × (is_empty bounds.allowed_strategies ≡ false
          → All (λ e. elem e.0 bounds.allowed_strategies ≡ true) a.strategy_weights)
      × All (λ e. (le bounds.w_min e.1 ≡ true) × (le e.1 bounds.w_max ≡ true)) a.strategy_weights
      × All (IsNudge bounds) a.param_nudges

  abbrev Accepts : ActionBounds W → ValidationResult W → Type 0
  Accepts bounds r = r.is_rejected ≡ false → IsInBounds bounds r.action

  -- What the earlier checks have settled.
  abbrev IsStyled : BoundedAction W → Type 0
  IsStyled a = (elem a.mode valid_modes ≡ true) × (elem a.exec_style valid_exec_styles ≡ true)

  check_style-IsStyled :
      (action : BoundedAction W)
      → elem action.mode valid_modes ≡ true
      → IsStyled (check_style action).0
  unfolding check_style
  check_style-IsStyled action h = elim (Bool-cases (elem action.exec_style valid_exec_styles)) [
    | inl e ↦ rw e (h, e)
    | inr e ↦ rw e (h, refl)
  ]

  choose_bucket-IsStyled :
      (reject : Bool) (bounds : ActionBounds W) (action : BoundedAction W) (clamped : List String)
      → IsStyled action
      → Ensures (Accepts bounds) (λ r. IsStyled r.0) (choose_bucket reject bounds action clamped)
  unfolding choose_bucket
  choose_bucket-IsStyled true bounds action clamped h =
      elim (Bool-cases (has_bucket action.size_bucket bounds.size_buckets)) [
        | inl e ↦ rw e h
        | inr e ↦ rw e (λ e'. cc)
      ]
  choose_bucket-IsStyled false bounds action clamped h =
      elim (Bool-cases (has_bucket action.size_bucket bounds.size_buckets)) [
        | inl e ↦ rw e h
        | inr e ↦ elim (Result-cases (nearest_bucket action.size_bucket bounds.size_buckets)) [
          | inl (b, e') ↦ rw (e, e') h
          | inr (x, e') ↦ rw (e, e') tt
        ]
      ]

  -- The action with its bucket capped.
  abbrev IsSized : BoundedAction W → Type 0
  IsSized a = IsStyled a × (gt a.size_bucket one ≡ false)

  cap_bucket-IsSized :
      (action : BoundedAction W) (clamped : List String)
      → IsOrdered W
      → IsStyled action
      → IsSized (cap_bucket action clamped).0
  unfolding cap_bucket
  cap_bucket-IsSized action clamped o h = elim (Bool-cases (gt action.size_bucket one)) [
    | inl e ↦ rw e (h, o.lt_irrefl one)
    | inr e ↦ rw e (h, e)
  ]

  -- The action with its weights checked.
  abbrev IsWeighted : ActionBounds W → BoundedAction W → Type 0
  IsWeighted bounds a =
      IsSized a
      × (is_empty bounds.allowed_strategies ≡ false
          → HasKeysIn bounds.allowed_strategies a.strategy_weights)
      × AreWithin bounds.w_min bounds.w_max a.strategy_weights

  drop_strategies-IsSized :
      (bounds : ActionBounds W) (action : BoundedAction W) (clamped : List String)
      → IsSized action
      → IsSized (drop_strategies bounds action clamped).0
  unfolding drop_strategies
  drop_strategies-IsSized bounds action clamped h =
      elim (Bool-cases (is_empty bounds.allowed_strategies)) [
        | inl e ↦ rw e h
        | inr e ↦
            elim (Bool-cases
              (is_empty (keys_outside bounds.allowed_strategies action.strategy_weights))) [
                | inl e' ↦ rw (e, e') h
                | inr e' ↦ rw (e, e') h
              ]
      ]

  check_weights-IsWeighted :
      (bounds : ActionBounds W) (action : BoundedAction W) (clamped : List String)
      → IsOrdered W
      → AreRanges bounds
      → IsSized action
      → IsWeighted bounds (check_weights bounds action clamped).0
  unfolding check_weights
  check_weights-IsWeighted bounds action clamped o r h =
      let d = (drop_strategies bounds action clamped).0.strategy_weights in
      (
        drop_strategies-IsSized bounds action clamped h,
        λ e.
            clamp_weights-HasKeysIn bounds bounds.allowed_strategies d
              (drop_strategies-HasKeysIn bounds action clamped e),
        clamp_weights-AreWithin bounds d o r.0,
      )

  check_nudges-Accepts :
      (bounds : ActionBounds W) (action : BoundedAction W) (clamped : List String)
      → IsOrdered W
      → AreRanges bounds
      → IsWeighted bounds action
      → Ensures (Accepts bounds) (Accepts bounds) (check_nudges bounds action clamped)
  unfolding check_nudges
  check_nudges-Accepts bounds action clamped o r h =
      let bad = keys_outside (keys bounds.registered_tunables) action.param_nudges in
      Ensures->>= (Accepts bounds) (λ _. is_empty bad ≡ true) (Accepts bounds)
        (return_if (not (is_empty bad)) (rejected action clamped (unregistered bad))) _
        (ground arith)
        (λ _ _.
          Ensures->>= (Accepts bounds) (λ r. All (IsNudge bounds) r.0) (Accepts bounds)
            (call (clamp_nudges bounds action.param_nudges)) _
            (Ensures-call-value (Accepts bounds) (λ r. All (IsNudge bounds) r.0)
              (clamp_nudges bounds action.param_nudges)
              (λ a e.
                subst (AreNudges bounds) e (clamp_nudges-AreNudges bounds action.param_nudges o r)))
            (λ n g _. (h.0.0.0, h.0.0.1, h.0.1, h.1, h.2, g)))

  validate_flow-Accepts :
      (reject : Bool) (action : BoundedAction W) (bounds : ActionBounds W)
      → IsOrdered W
      → AreRanges bounds
      → Ensures (Accepts bounds) (Accepts bounds) (validate_flow reject action bounds)
  validate_flow-Accepts reject action bounds o r =
      let styled = check_style action in
      Ensures->>= (Accepts bounds) (λ _. elem action.mode valid_modes ≡ true) (Accepts bounds)
        (return_if (not (elem action.mode valid_modes))
          (rejected action [] (invalid_mode action.mode)))
        _
        (Ensures-unless (Accepts bounds) (elem action.mode valid_modes)
          (rejected action [] (invalid_mode action.mode)) (λ _ e. cc))
        (λ _ e.
          Ensures->>= (Accepts bounds) (λ c. IsStyled c.0) (Accepts bounds)
            (choose_bucket reject bounds styled.0 styled.1) _
            (choose_bucket-IsStyled reject bounds styled.0 styled.1 (check_style-IsStyled action e))
            (λ c g.
              let sized = cap_bucket c.0 c.1 in
              let weighted = check_weights bounds sized.0 sized.1 in
              check_nudges-Accepts bounds weighted.0 weighted.1 o r (
                check_weights-IsWeighted bounds sized.0 sized.1 o r
                  (cap_bucket-IsSized c.0 c.1 o g))))

  pub validate-IsInBounds :
      (reject : Bool) (action : BoundedAction W) (bounds : ActionBounds W) (r : ValidationResult W)
      → IsOrdered W
      → AreRanges bounds
      → validate reject action bounds ≡ ok r
      → r.is_rejected ≡ false
      → IsInBounds bounds r.action
  unfolding validate
  validate-IsInBounds reject action bounds r o ranges e =
      Ensures-run (Accepts bounds) (validate_flow reject action bounds)
        (validate_flow-Accepts reject action bounds o ranges) e
