-- ===== src/Adaptation/Rollback.antt =====
-- src/adaptation/rollback.py: the guard that freezes a learner. The hooks are given by what their
-- calls return; `shown` and `shown4` write a float, in full and with four decimals. A call returns
-- the guard and the controller as it leaves them and the hooks that it ran, also where it raises.
pub mod Reverting
use Prim.Native.Nat as Nat
use Prim.Native.String as Text
use crypto_bot_quant.Base.{
  Bool, true, false, not, String, Option, none, some, List, [], ◌∷◌, ◌++◌, map, zero, suc, ℕ,
  if◌then◌else◌, str_eq, elem, length, select, is_some,
}
use crypto_bot_quant.Base.Int.{ℤ, pos, negsuc, leb_ℤ}
use crypto_bot_quant.Base.Result.{Result, ok, raised}
use crypto_bot_quant.Base.Result as Result
use crypto_bot_quant.Base.Float.{Float, ◌-◌, ge, gt, div}
use crypto_bot_quant.Adaptation.Policy.{Policy}
use crypto_bot_quant.Adaptation.Controller.{LearnerController, is_frozen, fallback_active, freeze}

pub record RollbackEvent : Type 0 where
  pub trigger : String
  pub detail : String
  pub controller_frozen : Bool
  pub is_fallback_active : Bool
  pub orders_cancelled : ℤ

pub record ShadowDecision (W : Type 0) : Type 0 where
  pub symbol : Option String
  pub projected_outcome : W
  pub realized_outcome : Option W
  pub take : Bool
  pub mode : String

pub record RollbackGuard (W : Type 0) : Type 0 where
  pub rollback_window : ℤ
  pub rollback_margin : W
  pub max_divergence : W
  pub alert_sink : Option (Result (Unit {0}))
  pub cancel_orders : Option (Result ℤ)
  pub log_writer : Option (Result (Unit {0}))
  pub environment : String
  pub decisions : List (ShadowDecision W)
  pub events : List RollbackEvent
  pub regime_flag : Bool
  pub breaker_flag : Bool
  pub divergence_flag : Bool

-- A hook that ran: the cancelling, the alert with its title and whether it says that a fallback is
-- active, and the log.
pub data Effect : Type 0 where
  cancelled : Effect
  alerted : String → Bool → Effect
  logged : RollbackEvent → Effect

-- `xs[n:]`
abbrev pub from_index {ℓ} : {A : Type ℓ} → ℕ → List A → List A
from_index n [] = []
from_index zero xs = xs
from_index (suc n) (x ∷ xs) = from_index n xs

-- `xs[-w:]`: the whole list for 0, and what follows the first -w items for a negative w.
unfoldable pub last_items {ℓ} : {A : Type ℓ} → ℤ → List A → List A
last_items (pos zero) xs = xs
last_items (pos (suc n)) xs = from_index (Nat.◌-◌ (length xs) (suc n)) xs
last_items (negsuc n) xs = from_index (suc n) xs

module _ {W : Type 0} where
  unfoldable pub add_decision : ShadowDecision W → RollbackGuard W → RollbackGuard W
  add_decision d g = record g { decisions = g.decisions ++ (d ∷ []) }

  unfoldable pub set_regime_unsafe : String → RollbackGuard W → RollbackGuard W
  set_regime_unsafe regime g = record g {
    regime_flag = elem regime ("R7_TOXIC_EXECUTION" ∷ "R8_DATA_UNSAFE" ∷ "RECON_FAILURE" ∷ []);
  }

  unfoldable pub set_envelope_breaker : Bool → RollbackGuard W → RollbackGuard W
  set_envelope_breaker fired g = record g { breaker_flag = fired }

  -- The projected and the realized outcome of each decision that has one.
  abbrev pub realized : List (ShadowDecision W) → List (W × W)
  realized [] = []
  realized (d ∷ ds) =
      let rest = realized ds in
      elim d.realized_outcome [ none ↦ rest | some r ↦ (d.projected_outcome, r) ∷ rest ]

module _ {W : Type 0} ⦃f : Float W⦄ where
  unfoldable pub set_divergence_flag : W → RollbackGuard W → RollbackGuard W
  set_divergence_flag divergence g = record g { divergence_flag = gt divergence g.max_divergence }

  -- The shortfall over the last realized decisions, if there are enough of them.
  unfoldable pub shortfall : RollbackGuard W → Result (Option W)
  shortfall g =
      let window = last_items g.rollback_window (realized g.decisions) in
      let count = f.of_int (pos (length window)) in
      if leb_ℤ g.rollback_window (pos (length window))
      then Result.◌>>=◌ (div (f.sum (map (λ d. d.1) window)) count) (λ mean_realized.
        Result.map (λ mean_projected. some (mean_projected - mean_realized))
          (div (f.sum (map (λ d. d.0) window)) count))
      else ok none

-- The outcome of a call of the guard.
pub record Reverted (W P A : Type 0) : Type 0 where
  pub guard : RollbackGuard W
  pub controller : LearnerController W P
  pub effects : List Effect
  pub outcome : Result A

module _ {W P : Type 0} where
  -- The alert, the log and the list of events, after the orders are cancelled.
  unfoldable pub announce :
      RollbackGuard W
      → LearnerController W P
      → List Effect
      → RollbackEvent
      → Reverted W P RollbackEvent
  announce g c effects event =
      let alert = alerted (Text.◌++◌ "learner_rollback: " event.trigger) event.is_fallback_active in
      let sent = if is_some g.alert_sink then effects ++ (alert ∷ []) else effects in
      let written = if is_some g.log_writer then sent ++ (logged event ∷ []) else sent in
      elim g.alert_sink [
        | some (raised e) ↦ record { guard = g; controller = c; effects = sent; outcome = raised e }
        | _ ↦ elim g.log_writer [
          | some (raised e) ↦ record {
            guard = g;
            controller = c;
            effects = written;
            outcome = raised e;
          }
          | _ ↦ record {
            guard = record g { events = g.events ++ (event ∷ []) };
            controller = c;
            effects = written;
            outcome = ok event;
          }
        ]
      ]

  -- The event of a revert that leaves the controller so.
  abbrev pub event_of : LearnerController W P → String → String → ℤ → RollbackEvent
  event_of c trigger detail orders_cancelled = record {
    trigger = trigger;
    detail = detail;
    controller_frozen = is_frozen c;
    is_fallback_active = fallback_active c;
    orders_cancelled = orders_cancelled;
  }

  -- What follows the freeze, by the hook that cancels orders.
  unfoldable pub after_freeze :
      RollbackGuard W
      → LearnerController W P
      → String
      → String
      → Option (Result ℤ)
      → Reverted W P RollbackEvent
  after_freeze g c trigger detail none = announce g c [] (event_of c trigger detail (pos 0))
  after_freeze g c trigger detail (some (ok n)) =
      announce g c (cancelled ∷ []) (event_of c trigger detail n)
  after_freeze g c trigger detail (some (raised e)) = record {
    guard = g;
    controller = c;
    effects = cancelled ∷ [];
    outcome = raised e;
  }

  -- The rest of a revert, if the freeze returns.
  unfoldable pub resume :
      RollbackGuard W
      → LearnerController W P
      → String
      → String
      → Result (Unit {0})
      → Reverted W P RollbackEvent
  resume g c trigger detail (raised e) = record {
    guard = g;
    controller = c;
    effects = [];
    outcome = raised e;
  }
  resume g c trigger detail (ok _) = after_freeze g c trigger detail g.cancel_orders

module _ {W P Blob : Type 0} ⦃f : Float W⦄ (π : Policy W P Blob) (read : String → Result Blob) where
  -- `revert`, which is also `_freeze`
  unfoldable pub revert :
      RollbackGuard W → LearnerController W P → String → String → Reverted W P RollbackEvent
  revert g c trigger detail =
      let (after, done) = freeze π read detail c in resume g after trigger detail done

module _ {W : Type 0} where
  abbrev pub shortfall_text : (W → String) → (W → String) → RollbackGuard W → W → String
  shortfall_text shown shown4 g short =
      Text.◌++◌ "shortfall "
        (Text.◌++◌ (shown4 short) (Text.◌++◌ " >= margin " (shown g.rollback_margin)))

  abbrev pub divergence_text : (W → String) → RollbackGuard W → String
  divergence_text shown g = Text.◌++◌ "live-vs-shadow divergence > " (shown g.max_divergence)

module _ {W P : Type 0} where
  -- A check that returns a revert's event.
  abbrev pub triggered : Reverted W P RollbackEvent → Reverted W P (Option RollbackEvent)
  triggered r = record {
    guard = r.guard;
    controller = r.controller;
    effects = r.effects;
    outcome = Result.map some r.outcome;
  }

  -- A check that leaves everything as it is.
  abbrev pub untouched :
      RollbackGuard W
      → LearnerController W P
      → Result (Option RollbackEvent)
      → Reverted W P (Option RollbackEvent)
  untouched g c outcome = record { guard = g; controller = c; effects = []; outcome = outcome }

module _ {W P Blob : Type 0} ⦃f : Float W⦄ (π : Policy W P Blob) (read : String → Result Blob)
    (shown shown4 : W → String) where
  -- The trigger of the shortfall.
  unfoldable pub check_shortfall :
      RollbackGuard W
      → LearnerController W P
      → Result (Option W)
      → Reverted W P (Option RollbackEvent)
  check_shortfall g c (raised e) = untouched g c (raised e)
  check_shortfall g c (ok none) = untouched g c (ok none)
  check_shortfall g c (ok (some short)) =
      if ge short g.rollback_margin
      then triggered (revert π read g c "underperformance" (shortfall_text shown shown4 g short))
      else untouched g c (ok none)

  unfoldable pub check :
      RollbackGuard W → LearnerController W P → Reverted W P (Option RollbackEvent)
  check g c =
      if is_frozen c
      then untouched g c (ok none)
      else if g.breaker_flag
      then triggered (revert π read g c "envelope_breaker" "envelope breaker fired")
      else if g.regime_flag
      then triggered (revert π read g c "unsafe_regime" "R7/R8 or reconciliation failure")
      else if g.divergence_flag
      then triggered (revert π read g c "divergence" (divergence_text shown g))
      else check_shortfall g c (shortfall g)
