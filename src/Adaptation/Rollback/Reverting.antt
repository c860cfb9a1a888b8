-- ===== src/Adaptation/Rollback/Reverting.antt =====
-- When a check freezes the learner, what a revert records, and that a freeze lasts.
use crypto_bot_quant.Base.{
  Bool, true, false, String, Option, none, some, List, [], ◌∷◌, ◌++◌, ◌≡◌, ◌∙◌, refl, arith, ◌||◌,
  ◌&&◌, subst, is_some,
}
use crypto_bot_quant.Base.Int.{ℤ, pos}
use crypto_bot_quant.Base.Result.{Result, ok, raised}
use crypto_bot_quant.Base.Dict.{Dict}
use crypto_bot_quant.Base.Value.{Value}
use crypto_bot_quant.Base.Float.{Float, ge}
use crypto_bot_quant.Adaptation.Policy.{Context, Outcome, Policy}
use crypto_bot_quant.Adaptation.Controller.{
  frozen, LearnerController, ControllerDecision, run, freeze, record_outcome,
}
use crypto_bot_quant.Adaptation.Controller.Frozen.{
  run-not_applied, run-keeps, freeze-freezes, record_outcome-keeps,
}
use crypto_bot_quant.Adaptation.Rollback.{
  RollbackEvent, RollbackGuard, Effect, Reverted, announce, after_freeze, event_of, resume,
  shortfall_text, divergence_text, revert, shortfall, check_shortfall, check,
}

module _ {W P : Type 0} where
  announce-controller :
      (g : RollbackGuard W) (c : LearnerController W P) (effects : List Effect)
      (event : RollbackEvent)
      → (announce g c effects event).controller ≡ c
  unfolding announce
  announce-controller g c effects event = ground arith

  after_freeze-controller :
      (g : RollbackGuard W) (c : LearnerController W P) (trigger detail : String)
      (hook : Option (Result ℤ))
      → (after_freeze g c trigger detail hook).controller ≡ c
  unfolding after_freeze
  after_freeze-controller g c trigger detail none = announce-controller g c _ _
  after_freeze-controller g c trigger detail (some (ok n)) = announce-controller g c _ _
  after_freeze-controller g c trigger detail (some (raised e)) = refl

  resume-controller :
      (g : RollbackGuard W) (c : LearnerController W P) (trigger detail : String)
      (done : Result (Unit {0}))
      → (resume g c trigger detail done).controller ≡ c
  unfolding resume
  resume-controller g c trigger detail (ok _) =
      after_freeze-controller g c trigger detail g.cancel_orders
  resume-controller g c trigger detail (raised e) = refl

module _ {W P Blob : Type 0} ⦃f : Float W⦄ (π : Policy W P Blob) (read : String → Result Blob) where
  revert-controller :
      (g : RollbackGuard W) (c : LearnerController W P) (trigger detail : String)
      → (revert π read g c trigger detail).controller ≡ (freeze π read detail c).0
  unfolding revert
  revert-controller g c trigger detail =
      let (after, done) = freeze π read detail c in resume-controller g after trigger detail done

  -- A revert freezes the controller, whatever its hooks do and the read of the fallback.
  pub revert_freezes :
      (g : RollbackGuard W) (c : LearnerController W P) (trigger detail : String)
      → let after = (revert π read g c trigger detail).controller in
        (after.has_frozen ≡ true) × (after.mode ≡ frozen)
  revert_freezes g c trigger detail =
      rw (revert-controller g c trigger detail) (freeze-freezes π read detail c)

-- The trigger of a guard's shortfall.
abbrev falls_short : {W : Type 0} → ⦃f : Float W⦄ → W → Result (Option W) → Bool
falls_short margin (ok (some short)) = ge short margin
falls_short margin (ok none) = false
falls_short margin (raised e) = false

module _ {W : Type 0} ⦃f : Float W⦄ where
  -- Some trigger has fired.
  abbrev pub is_due : RollbackGuard W → Bool
  is_due g =
      g.breaker_flag
      || g.regime_flag
      || g.divergence_flag
      || falls_short g.rollback_margin (shortfall g)

module _ {W P Blob : Type 0} ⦃f : Float W⦄ (π : Policy W P Blob) (read : String → Result Blob)
    (shown shown4 : W → String) where
  check_shortfall-has_frozen :
      (g : RollbackGuard W) (c : LearnerController W P) (short : Result (Option W))
      → (check_shortfall π read shown shown4 g c short).controller.has_frozen
        ≡ (c.has_frozen || falls_short g.rollback_margin short)
  unfolding check_shortfall
  check_shortfall-has_frozen g c (raised e) = ground arith
  check_shortfall-has_frozen g c (ok none) = ground arith
  check_shortfall-has_frozen g c (ok (some short)) =
      let freezes =
        (revert_freezes π read g c "underperformance" (shortfall_text shown shown4 g short)).0 in
      ground arith

  -- A check freezes a controller exactly if a trigger has fired: a flag is set, or the realized
  -- decisions fall short by the margin or more. It is so whatever the hooks and the read of the
  -- fallback do, also where the check raises, and a frozen controller stays frozen.
  pub check_freezes_exactly :
      (g : RollbackGuard W) (c : LearnerController W P)
      → (check π read shown shown4 g c).controller.has_frozen ≡ (c.has_frozen || is_due g)
  unfolding check
  check_freezes_exactly g c =
      let breaker = (revert_freezes π read g c "envelope_breaker" "envelope breaker fired").0 in
      let regime =
        (revert_freezes π read g c "unsafe_regime" "R7/R8 or reconciliation failure").0 in
      let divergence = (revert_freezes π read g c "divergence" (divergence_text shown g)).0 in
      let short = check_shortfall-has_frozen g c (shortfall g) in ground arith

module _ {W P : Type 0} where
  -- What a revert that returns has recorded: the event is the truth about the controller, and it is
  -- the last of the guard's events.
  abbrev pub IsRecorded : RollbackGuard W → Reverted W P RollbackEvent → RollbackEvent → Type 0
  IsRecorded g r event =
      (event.controller_frozen ≡ r.controller.has_frozen)
      × (event.is_fallback_active ≡ (r.controller.has_frozen && is_some r.controller.frozen_policy))
      × (r.guard.events ≡ g.events ++ (event ∷ []))

  abbrev Records : RollbackGuard W → Reverted W P RollbackEvent → Type 0
  Records g r = (event : RollbackEvent) → r.outcome ≡ ok event → IsRecorded g r event

  -- The outcome of an announcement and the events that it leaves.
  announce-outcome :
      (g : RollbackGuard W) (c : LearnerController W P) (effects : List Effect)
      (e event : RollbackEvent)
      → (announce g c effects e).outcome ≡ ok event
      → (e ≡ event) × ((announce g c effects e).guard.events ≡ g.events ++ (e ∷ []))
  unfolding announce
  announce-outcome g c effects e event h = (ground arith, ground arith)

  announce-Records :
      (g : RollbackGuard W) (c : LearnerController W P) (effects : List Effect)
      (trigger detail : String) (n : ℤ)
      → Records g (announce g c effects (event_of c trigger detail n))
  announce-Records g c effects trigger detail n event h =
      let e = event_of c trigger detail n in
      let (same, kept) = announce-outcome g c effects e event h in
      subst (IsRecorded g (announce g c effects e)) same
        (rw (announce-controller g c effects e) (refl, refl, kept))

  after_freeze-Records :
      (g : RollbackGuard W) (c : LearnerController W P) (trigger detail : String)
      (hook : Option (Result ℤ))
      → Records g (after_freeze g c trigger detail hook)
  unfolding after_freeze
  after_freeze-Records g c trigger detail none = announce-Records g c [] trigger detail (pos 0)
  after_freeze-Records g c trigger detail (some (ok n)) =
      announce-Records g c (Effect.cancelled ∷ []) trigger detail n
  after_freeze-Records g c trigger detail (some (raised x)) = λ event h. cc

  resume-Records :
      (g : RollbackGuard W) (c : LearnerController W P) (trigger detail : String)
      (done : Result (Unit {0}))
      → Records g (resume g c trigger detail done)
  unfolding resume
  resume-Records g c trigger detail (ok _) = after_freeze-Records g c trigger detail g.cancel_orders
  resume-Records g c trigger detail (raised e) = λ event h. cc

module _ {W P Blob : Type 0} ⦃f : Float W⦄ (π : Policy W P Blob) where
  -- A revert that returns an event has frozen the controller, the event says so and says that a
  -- fallback is active exactly if the controller has one, and it is the last of the guard's events.
  pub revert_records_truth :
      (read : String → Result Blob) (g : RollbackGuard W) (c : LearnerController W P)
      (trigger detail : String) (event : RollbackEvent)
      → (revert π read g c trigger detail).outcome ≡ ok event
      → let r = revert π read g c trigger detail in
        (event.controller_frozen ≡ true)
        × (event.is_fallback_active ≡ is_some r.controller.frozen_policy)
        × (r.guard.events ≡ g.events ++ (event ∷ []))
  unfolding revert
  revert_records_truth read g c trigger detail event h =
      let (after, done) = freeze π read detail c in
      let recorded = resume-Records g after trigger detail done event h in
      let frozen_now = (revert_freezes π read g c trigger detail).0 in
      (recorded.0 ∙ frozen_now, recorded.1 ∙ rw frozen_now refl, recorded.2)

  -- The calls on a controller: decisions, outcomes, freezes and checks of a guard, which has the
  -- flags and the decisions that its own calls have given it.
  pub data Calls (read : String → Result Blob) (start : LearnerController W P)
      : LearnerController W P → Type 0 where
    started : Calls read start start
    ran :
        {c : LearnerController W P} (upper : String → String) (no_trade : List String)
        (raw : Result (Dict (Value W))) (ctx : Context W) (active : Option (List String))
        (hard_blocked : Bool)
        → Calls read start c
        → Calls read start (run π upper no_trade raw ctx active hard_blocked c).0
    recorded :
        {c : LearnerController W P} (ctx : Context W) (d : ControllerDecision W)
        (outcome : Outcome W)
        → Calls read start c
        → Calls read start (record_outcome π ctx d outcome c).0
    froze :
        {c : LearnerController W P} (reason : String)
        → Calls read start c
        → Calls read start (freeze π read reason c).0
    checked :
        {c : LearnerController W P} (shown shown4 : W → String) (g : RollbackGuard W)
        → Calls read start c
        → Calls read start (check π read shown shown4 g c).controller

  Calls-has_frozen :
      {read : String → Result Blob} {start c : LearnerController W P}
      → Calls read start c
      → start.has_frozen ≡ true
      → c.has_frozen ≡ true
  Calls-has_frozen started h = h
  Calls-has_frozen (ran {c = c} upper no_trade raw ctx active hard_blocked s) h =
      (run-keeps upper no_trade π raw ctx active hard_blocked c).0 ∙ Calls-has_frozen s h
  Calls-has_frozen (recorded {c = c} ctx d outcome s) h =
      (record_outcome-keeps π ctx d outcome c).0 ∙ Calls-has_frozen s h
  Calls-has_frozen {read = read} (froze {c = c} reason s) h = (freeze-freezes π read reason c).0
  Calls-has_frozen {read = read} (checked {c = c} shown shown4 g s) h =
      check_freezes_exactly π read shown shown4 g c ∙ rw (Calls-has_frozen s h) refl

  -- Once a controller is frozen, no calls unfreeze it, and no decision that they let it make is
  -- applied.
  pub frozen_is_final :
      (read : String → Result Blob) (start c : LearnerController W P) (upper : String → String)
      (no_trade : List String) (raw : Result (Dict (Value W))) (ctx : Context W)
      (active : Option (List String)) (hard_blocked : Bool) (d : ControllerDecision W)
      → Calls read start c
      → start.has_frozen ≡ true
      → (run π upper no_trade raw ctx active hard_blocked c).1 ≡ ok d
      → (c.has_frozen ≡ true) × (d.is_applied ≡ false)
  frozen_is_final read start c upper no_trade raw ctx active hard_blocked d s h r =
      let still = Calls-has_frozen s h in
      (still, run-not_applied upper no_trade π raw ctx active hard_blocked c d still r)
