-- ===== src/Adaptation/Controller.antt =====
-- src/adaptation/controller.py: the learner's modes and its decision path. `read` is the call of
-- `load_frozen_fallback` on a path, `upper` is `str.upper`; NO_TRADE_REGIMES, which comes from a
-- file, and the raw envelope are arguments. A call returns the controller as it leaves it, also
-- where it raises.
pub mod Applied
pub mod Frozen
use Prim.Native.String as Text
use text.Mathlib.Text.{find?}
use crypto_bot_quant.Base.{
  suc, ℕ, Bool, true, false, not, String, Option, none, some, List, [], ◌∷◌, ◌++◌, ◌&&◌, ◌||◌,
  if◌then◌else◌, elem, any, is_some, str_eq,
}
use crypto_bot_quant.Base.Result.{Exc, value_error, permission_error, os_error, Result, ok, raised}
use mathlib.Core.Option as Option
use crypto_bot_quant.Base.Result as Result
use crypto_bot_quant.Base.Dict.{Dict}
use crypto_bot_quant.Base.Value.{Value}
use crypto_bot_quant.Base.Float.{Float}
use crypto_bot_quant.Adaptation.ActionSpace.{
  BoundedAction, ActionBounds, Reason, ValidationResult, validate,
}
use crypto_bot_quant.Adaptation.EnvelopeGuard.{enforce}
use crypto_bot_quant.Adaptation.Policy.{Context, Outcome, Policy}

pub data LearnerMode : Type 0 where
  shadow recommend live_bounded frozen : LearnerMode

abbrev pub mode_value : LearnerMode → String
mode_value shadow = "SHADOW"
mode_value recommend = "RECOMMEND"
mode_value live_bounded = "LIVE_BOUNDED"
mode_value frozen = "FROZEN"

abbrev pub is_live_bounded : LearnerMode → Bool
is_live_bounded live_bounded = true
is_live_bounded _ = false

pub data DecisionReason (W : Type 0) : Type 0 where
  disabled : String → DecisionReason W
  guarded : Reason W → DecisionReason W
  resurrects : Option String → Bool → DecisionReason W

pub record ControllerDecision (W : Type 0) : Type 0 where
  pub action : Option (BoundedAction W)
  pub is_applied : Bool
  pub clamped_fields : List String
  pub is_rejected : Bool
  pub rejection_reason : Option (DecisionReason W)
  pub mode : String

pub record LearnerController (W P : Type 0) : Type 0 where
  pub policy : P
  pub bounds : ActionBounds W
  pub mode : LearnerMode
  pub frozen_policy : Option P
  pub fallback_snapshot_path : Option String
  pub frozen_reason : String
  pub decision_count : ℕ
  pub has_frozen : Bool

-- `code.split("_", 1)[-1]`
unfoldable pub after_underscore : String → String
after_underscore code = elim (find? code "_") [
  | none ↦ code
  | some i ↦ Text.slice code (suc i) (Text.len code)
]

-- `_is_no_trade_regime`
unfoldable pub is_no_trade_regime : (String → String) → List String → Option String → Bool
unfolding after_underscore
is_no_trade_regime upper no_trade none = false
is_no_trade_regime upper no_trade (some r) =
    if str_eq r ""
    then false
    else if elem r no_trade
    then true
    else any (λ code. is_some (find? code (upper r)) || str_eq (after_underscore code) (upper r))
        no_trade

-- `self.frozen_reason or "unspecified"`
abbrev pub or_unspecified : String → String
or_unspecified reason = if str_eq reason "" then "unspecified" else reason

module _ {W P : Type 0} where
  abbrev pub is_frozen : LearnerController W P → Bool
  is_frozen c = c.has_frozen

  abbrev pub fallback_active : LearnerController W P → Bool
  fallback_active c = c.has_frozen && is_some c.frozen_policy

  abbrev pub learner_disabled : LearnerController W P → Bool
  learner_disabled c = c.has_frozen && not (is_some c.frozen_policy)

  -- The action mode that a decision is made in.
  abbrev pub action_mode : LearnerController W P → String
  action_mode c = if c.has_frozen then "SHADOW" else mode_value c.mode

  abbrev pub would_apply : LearnerController W P → Bool
  would_apply c = is_live_bounded c.mode && not c.has_frozen

  -- `_effective_policy`
  unfoldable pub effective_policy : LearnerController W P → P
  effective_policy c =
      if c.has_frozen then elim c.frozen_policy [ none ↦ c.policy | some p ↦ p ] else c.policy

  -- The controller after its effective policy has changed to `p`.
  unfoldable pub with_effective_policy : P → LearnerController W P → LearnerController W P
  with_effective_policy p c =
      if fallback_active c then record c { frozen_policy = some p } else record c { policy = p }

  abbrev pub reject :
      LearnerController W P → List String → Option (DecisionReason W) → ControllerDecision W
  reject c clamped reason = record {
    action = none;
    is_applied = false;
    clamped_fields = clamped;
    is_rejected = true;
    rejection_reason = reason;
    mode = mode_value c.mode;
  }

-- `except (FileNotFoundError, OSError, ValueError)`; a missing file is an OSError.
abbrev pub is_unavailable : Exc → Bool
is_unavailable value_error = true
is_unavailable permission_error = true
is_unavailable os_error = true
is_unavailable _ = false

module _ {W P Blob : Type 0} ⦃f : Float W⦄ (π : Policy W P Blob) (read : String → Result Blob) where
  -- A new policy with the blob loaded, or none where that raises.
  abbrev pub loaded : Blob → Option P
  loaded blob = elim (Result.◌>>=◌ π.fresh (π.load blob)) [ raised e ↦ none | ok p ↦ some p ]

  -- `_load_fallback_policy`
  unfoldable pub load_fallback_policy : Option String → Result (Option P)
  load_fallback_policy none = ok none
  load_fallback_policy (some path) = elim (read path) [
    | raised e ↦ if is_unavailable e then ok none else raised e
    | ok blob ↦ ok (loaded blob)
  ]

  unfoldable pub freeze : String → LearnerController W P → LearnerController W P × Result (Unit {0})
  freeze reason c =
      let stopped = record c {
        has_frozen = true;
        mode = frozen;
        frozen_reason = or_unspecified reason;
      } in
      elim c.frozen_policy [
        | some p ↦ (stopped, ok tt)
        | none ↦ elim (load_fallback_policy c.fallback_snapshot_path) [
          | raised e ↦ (stopped, raised e)
          | ok fallback ↦ (record stopped { frozen_policy = fallback }, ok tt)
        ]
      ]

module _ {W P Blob : Type 0} (π : Policy W P Blob) where
  unfoldable pub record_outcome :
      Context W
      → ControllerDecision W
      → Outcome W
      → LearnerController W P
      → LearnerController W P × Result (Unit {0})
  record_outcome ctx decision outcome c = elim decision.action [
    | none ↦ (c, ok tt)
    | some action ↦
        let updated = π.update ctx action outcome (effective_policy c) in
        if c.has_frozen then (c, ok tt) else (with_effective_policy updated.0 c, updated.1)
  ]

module _ {W P : Type 0} (upper : String → String) (no_trade : List String) where
  -- The decision on an action that both guards pass.
  unfoldable pub conclude :
      Context W
      → Bool
      → LearnerController W P
      → List String
      → ValidationResult W
      → ControllerDecision W
  conclude ctx hard_blocked c clamped guard =
      if would_apply c
        && (guard.action.take && (hard_blocked || is_no_trade_regime upper no_trade ctx.regime))
      then reject c guard.clamped_fields (some (resurrects ctx.regime hard_blocked))
      else record {
        action = some guard.action;
        is_applied = would_apply c;
        clamped_fields = clamped ++ guard.clamped_fields;
        is_rejected = false;
        rejection_reason = none;
        mode = mode_value c.mode;
      }

  -- The decision on what the envelope guard says.
  unfoldable pub after_guard :
      Context W
      → Bool
      → LearnerController W P
      → List String
      → ValidationResult W
      → ControllerDecision W
  after_guard ctx hard_blocked c clamped guard =
      if guard.is_rejected
      then reject c guard.clamped_fields (Option.map guarded guard.rejection_reason)
      else conclude ctx hard_blocked c clamped guard

module _ {W P : Type 0} ⦃f : Float W⦄ (upper : String → String) (no_trade : List String)
    (raw : Result (Dict (Value W))) where
  -- The decision on what the validation says.
  unfoldable pub after_validation :
      Context W
      → Option (List String)
      → Bool
      → LearnerController W P
      → ValidationResult W
      → Result (ControllerDecision W)
  after_validation ctx active_strategies hard_blocked c val =
      if val.is_rejected
      then ok (reject c val.clamped_fields (Option.map guarded val.rejection_reason))
      else Result.map (after_guard upper no_trade ctx hard_blocked c val.clamped_fields)
          (enforce raw active_strategies none val.action)

  -- The decision on a raw action: it is validated, then guarded.
  unfoldable pub judge :
      Context W
      → Option (List String)
      → Bool
      → LearnerController W P
      → BoundedAction W
      → Result (ControllerDecision W)
  judge ctx active_strategies hard_blocked c raw_action =
      Result.◌>>=◌ (validate true (record raw_action { mode = action_mode c }) c.bounds)
        (after_validation ctx active_strategies hard_blocked c)

module _ {W P Blob : Type 0} ⦃f : Float W⦄ (π : Policy W P Blob) (upper : String → String)
    (no_trade : List String) (raw : Result (Dict (Value W))) where
  unfoldable pub run :
      Context W
      → Option (List String)
      → Bool
      → LearnerController W P
      → LearnerController W P × Result (ControllerDecision W)
  run ctx active_strategies hard_blocked c =
      let counted = record c { decision_count = suc c.decision_count } in
      let decided = π.decide ctx (effective_policy counted) in
      if learner_disabled counted
      then (counted, ok (reject counted [] (some (disabled (or_unspecified c.frozen_reason)))))
      else (
        with_effective_policy decided.0 counted,
        Result.◌>>=◌ decided.1
            (judge upper no_trade raw ctx active_strategies hard_blocked counted),
      )
