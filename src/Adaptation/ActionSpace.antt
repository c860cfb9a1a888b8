-- ===== src/Adaptation/ActionSpace.antt =====
-- src/adaptation/action_space.py: the action of a learner and its validation. A deep copy is the
-- value itself.
pub mod Clamping
pub mod Bounds
pub mod Buckets
use Prim.Native.String as Text
use crypto_bot_quant.Base.{
  Bool, true, false, not, String, Option, none, some, List, [], ◌∷◌, ◌++◌, if◌then◌else◌, elem,
  is_empty, select, any, sorted,
}
use crypto_bot_quant.Base.Result.{Result, ok, raised, value_error, key_error}
use crypto_bot_quant.Base.Flow.{Flow, next, return, return_if, call, run, ◌>>=◌, ◌>>◌}
use crypto_bot_quant.Base.Dict.{Dict, lookup, get_or, contains, keys}
use crypto_bot_quant.Base.Float.{Float, ◌-◌, lt, gt, eq, min, max, one}

pub record BoundedAction (W : Type 0) : Type 0 where
  pub strategy_weights : Dict W
  pub size_bucket : W
  pub take : Bool
  pub exec_style : String
  pub param_nudges : Dict W
  pub learner_id : String
  pub learner_version : String
  pub mode : String
  pub rationale : String
  pub projected_outcome_r : Option W
  pub win_probability : Option W

pub record ActionBounds (W : Type 0) : Type 0 where
  pub w_min : W
  pub w_max : W
  pub size_buckets : List W
  pub max_change_per_update : W
  pub max_change_rate : W
  pub registered_tunables : Dict (Dict W)
  pub allowed_strategies : List String

pub data Reason (W : Type 0) : Type 0 where
  invalid_mode : String → Reason W
  bad_bucket : W → Reason W
  unregistered inactive forbidden : List String → Reason W
  take_in_mode : String → Reason W

pub record ValidationResult (W : Type 0) : Type 0 where
  pub action : BoundedAction W
  pub clamped_fields : List String
  pub is_rejected : Bool
  pub rejection_reason : Option (Reason W)

abbrev pub valid_modes : List String
valid_modes = "SHADOW" ∷ "RECOMMEND" ∷ "LIVE_BOUNDED" ∷ []

abbrev pub valid_exec_styles : List String
valid_exec_styles = "maker" ∷ "taker" ∷ "passive_then_taker" ∷ []

-- `if "strategy_weights" not in clamped: clamped.append("strategy_weights")`
abbrev pub append_once : String → List String → List String
append_once s clamped = if elem s clamped then clamped else clamped ++ (s ∷ [])

module _ {W : Type 0} where
  abbrev pub rejected : BoundedAction W → List String → Reason W → ValidationResult W
  rejected action clamped reason = record {
    action = action;
    clamped_fields = clamped;
    is_rejected = true;
    rejection_reason = some reason;
  }

  abbrev pub passed : BoundedAction W → List String → ValidationResult W
  passed action clamped = record {
    action = action;
    clamped_fields = clamped;
    is_rejected = false;
    rejection_reason = none;
  }

  -- `sorted(set(d) - names)`
  abbrev pub keys_outside : List String → Dict W → List String
  keys_outside names d = sorted (select (λ k. not (elem k names)) (keys d))

  -- The entries with a key among the names.
  unfoldable pub restrict : List String → Dict W → Dict W
  restrict names [] = []
  restrict names ((k, w) ∷ d) =
      let rest = restrict names d in if elem k names then (k, w) ∷ rest else rest

  -- The check of the execution style.
  unfoldable pub check_style : BoundedAction W → BoundedAction W × List String
  check_style action =
      if elem action.exec_style valid_exec_styles
      then (action, [])
      else (record action { exec_style = "maker" }, "exec_style" ∷ [])

  -- The weights of strategies that are not allowed are dropped, unless no set of them is declared.
  unfoldable pub drop_strategies :
      ActionBounds W → BoundedAction W → List String → BoundedAction W × List String
  drop_strategies bounds action clamped =
      if is_empty bounds.allowed_strategies
      then (action, clamped)
      else if is_empty (keys_outside bounds.allowed_strategies action.strategy_weights)
      then (action, clamped)
      else (
        record action {
          strategy_weights = restrict bounds.allowed_strategies action.strategy_weights;
        },
        clamped ++ ("strategy_weights" ∷ []),
      )

module _ {W : Type 0} ⦃f : Float W⦄ where
  abbrev pub has_bucket : W → List W → Bool
  has_bucket x buckets = any (λ b. eq b x) buckets

  -- `min(buckets, key=lambda b: abs(b - x))`: the first of the nearest.
  abbrev pub nearest_of : W → W → List W → W
  nearest_of x best [] = best
  nearest_of x best (b ∷ bs) =
      nearest_of x (if lt (f.abs (b - x)) (f.abs (best - x)) then b else best) bs

  unfoldable pub nearest_bucket : W → List W → Result W
  nearest_bucket x [] = raised value_error
  nearest_bucket x (b ∷ bs) = ok (nearest_of x b bs)

  -- `max(lo, min(hi, x))`
  abbrev pub clamp : W → W → W → W
  clamp lo hi x = max lo (min hi x)

  -- The value after `if clamped != x: d[k] = clamped`.
  abbrev pub assign_clamped : W → W → W → W
  assign_clamped lo hi x = if eq (clamp lo hi x) x then x else clamp lo hi x

  -- The weights, clamped, and whether one of them changed.
  unfoldable pub clamp_weights : ActionBounds W → Dict W → Dict W × Bool
  clamp_weights bounds [] = ([], false)
  clamp_weights bounds ((k, w) ∷ d) =
      let (rest, changed) = clamp_weights bounds d in
      (
        (k, assign_clamped bounds.w_min bounds.w_max w) ∷ rest,
        if eq (clamp bounds.w_min bounds.w_max w) w then changed else true,
      )

  abbrev pub zone_lo : Dict W → W
  zone_lo zone = get_or "lo" (f.neg f.inf) zone

  abbrev pub zone_hi : Dict W → W
  zone_hi zone = get_or "hi" f.inf zone

  -- The nudges, clamped to the zones of their tunables, and the names of those that changed.
  unfoldable pub clamp_nudges : ActionBounds W → Dict W → Result (Dict W × List String)
  clamp_nudges bounds [] = ok ([], [])
  clamp_nudges bounds ((k, v) ∷ d) =
      let others = clamp_nudges bounds d in
      elim (lookup k bounds.registered_tunables) [
        | none ↦ raised key_error
        | some zone ↦ elim others [
          | raised e ↦ raised e
          | ok (rest, names) ↦ ok (
            (k, assign_clamped (zone_lo zone) (zone_hi zone) v) ∷ rest,
            if eq (clamp (zone_lo zone) (zone_hi zone) v) v
                then names
                else Text.◌++◌ "param_nudges." k ∷ names,
          )
        ]
      ]

  -- The bucket is one of those declared, or the action is rejected or gets the nearest.
  unfoldable pub choose_bucket :
      Bool
      → ActionBounds W
      → BoundedAction W
      → List String
      → Flow (ValidationResult W) (BoundedAction W × List String)
  choose_bucket reject_on_bad_bucket bounds action clamped =
      if has_bucket action.size_bucket bounds.size_buckets
      then next (action, clamped)
      else if reject_on_bad_bucket
      then return (rejected action clamped (bad_bucket action.size_bucket))
      else (call (nearest_bucket action.size_bucket bounds.size_buckets) >>= λ nearest.
          next (record action { size_bucket = nearest }, clamped ++ ("size_bucket" ∷ [])))

  -- The bucket is never above 1.
  unfoldable pub cap_bucket : BoundedAction W → List String → BoundedAction W × List String
  cap_bucket action clamped =
      if gt action.size_bucket one
      then (record action { size_bucket = one }, clamped ++ ("size_bucket" ∷ []))
      else (action, clamped)

  -- The weights after both checks.
  unfoldable pub check_weights :
      ActionBounds W → BoundedAction W → List String → BoundedAction W × List String
  unfolding drop_strategies clamp_weights
  check_weights bounds action clamped =
      let (act, marked) = drop_strategies bounds action clamped in
      let (weights, changed) = clamp_weights bounds act.strategy_weights in
      (
        record act { strategy_weights = weights },
        if changed then append_once "strategy_weights" marked else marked,
      )

  unfoldable pub check_nudges :
      ActionBounds W
      → BoundedAction W
      → List String
      → Flow (ValidationResult W) (ValidationResult W)
  check_nudges bounds action clamped = do
    let bad = keys_outside (keys bounds.registered_tunables) action.param_nudges
    return_if (not (is_empty bad)) (rejected action clamped (unregistered bad))
    (nudges, names) ← call (clamp_nudges bounds action.param_nudges)
    next (passed (record action { param_nudges = nudges }) (clamped ++ names))

  abbrev pub validate_flow :
      Bool → BoundedAction W → ActionBounds W → Flow (ValidationResult W) (ValidationResult W)
  validate_flow reject_on_bad_bucket action bounds = do
    return_if (not (elem action.mode valid_modes)) (rejected action [] (invalid_mode action.mode))
    let (styled, marked) = check_style action
    (chosen, marked0) ← choose_bucket reject_on_bad_bucket bounds styled marked
    let (sized, marked1) = cap_bucket chosen marked0
    let (weighted, marked2) = check_weights bounds sized marked1
    check_nudges bounds weighted marked2

  unfoldable pub validate : Bool → BoundedAction W → ActionBounds W → Result (ValidationResult W)
  validate reject_on_bad_bucket action bounds =
      run (validate_flow reject_on_bad_bucket action bounds)
