-- ===== src/Execution/Engine.antt =====
-- src/execution/engine.py: revalidate, build, place the bracket, measure the fill. The engine drives
-- any venue behind the `Venue` protocol; the texts of reasons are values of `Abort`.
pub mod Safety
pub mod Simulated
use crypto_bot_quant.Base.{
  Bool, true, false, not, String, Option, none, some, if◌then◌else◌, is_some, ◌||◌,
}
use crypto_bot_quant.Base.Result.{Result, ok, raised, Exc, permission_error}
use crypto_bot_quant.Base.Result as Result
use crypto_bot_quant.Base.Float.{Float, gt, le, nought}
use crypto_bot_quant.Exchange.Metadata.{MetadataConfig, find_spec}
use crypto_bot_quant.Ranking.Candidate.{Candidate}
use crypto_bot_quant.Risk.Manager.Defs.{RiskDecision, Action}
use crypto_bot_quant.Execution.Config.{ExecutionPolicyConfig}
use crypto_bot_quant.Execution.Ownership.{OwnershipPolicy}
use crypto_bot_quant.Execution.Order.{OrderPlan}
use crypto_bot_quant.Execution.Order.Build.{BuildResult, BuildReason, failed, built, build}
use crypto_bot_quant.Execution.Venue.{Fill, VenuePosition, BracketResult, Terms, has_stop}

-- What the engine calls of a venue with states S: the placement returns or raises.
pub record Venue (W S : Type 0) : Type 0 where
  pub place : OrderPlan W → Terms W → S → Result (BracketResult W) × S

pub data Abort (W : Type 0) : Type 0 where
  risk_rejected : Action → Abort W
  kill_switch_engaged stale_data missing_metadata live_order_refused : Abort W
  entry_unfilled position_without_exchange_side_stop : Abort W
  toxic_spread slippage_exceeds_cap abnormal_latency : W → Abort W
  order_build_failed : BuildReason W → Abort W

-- How far `execute` comes before it calls the venue: an abort, or a plan to place.
pub data Prepared (W : Type 0) : Type 0 where
  refused : Abort W → OwnershipPolicy → Prepared W
  ready : OrderPlan W → OwnershipPolicy → Prepared W

pub record ExecutionResult (W : Type 0) : Type 0 where
  pub placed : Bool
  pub reason : Option (Abort W)
  pub plan : Option (OrderPlan W)
  pub fill : Option (Fill W)
  pub position : Option (VenuePosition W)
  pub fully_filled : Bool
  pub remaining_qty : W

-- The keyword arguments of `execute`.
pub record Request (W : Type 0) : Type 0 where
  pub realized_slippage_frac : Option W
  pub signal_age_ms : W
  pub fill_ratio : W
  pub entry_style : Option String

-- `revalidate`; `killed` is the answer of the kill switch.
module _ {W : Type 0} ⦃f : Float W⦄ where
  unfoldable pub revalidate : ExecutionPolicyConfig W → Bool → Candidate W → Option (Abort W)
  revalidate cfg killed c =
      if killed
      then some kill_switch_engaged
      else if not c.data_fresh
      then some stale_data
      else if gt c.spread_bps cfg.max_spread_bps
      then some (toxic_spread c.spread_bps)
      else if gt c.slippage_est cfg.max_slippage_frac
      then some (slippage_exceeds_cap c.slippage_est)
      else if gt c.latency_ms cfg.max_latency_ms
      then some (abnormal_latency c.latency_ms)
      else none

  -- `ExecutionResult(False, reason=r)`
  abbrev pub aborted : Abort W → ExecutionResult W
  aborted r = record {
    placed = false;
    reason = some r;
    plan = none;
    fill = none;
    position = none;
    fully_filled = true;
    remaining_qty = nought;
  }

  -- What becomes of a bracket that the venue has placed.
  unfoldable pub conclude : OrderPlan W → BracketResult W → ExecutionResult W
  conclude plan b =
      if le b.fill.qty nought
      then record {
        placed = false;
        reason = some entry_unfilled;
        plan = some plan;
        fill = some b.fill;
        position = none;
        fully_filled = false;
        remaining_qty = b.remaining_qty;
      }
      else if not (has_stop b.position)
      then aborted position_without_exchange_side_stop
      else record {
        placed = true;
        reason = none;
        plan = some plan;
        fill = some b.fill;
        position = some b.position;
        fully_filled = b.fully_filled;
        remaining_qty = b.remaining_qty;
      }

  abbrev pub terms : ExecutionPolicyConfig W → Candidate W → Request W → Terms W
  terms cfg c q = record {
    ref_price = c.entry_price;
    realized_slippage_frac = elim q.realized_slippage_frac as (λ _. W) [
      | none ↦ c.slippage_est
      | some s ↦ s
    ];
    latency_ms = cfg.simulated_latency_ms;
    spread_bps = c.spread_bps;
    signal_age_ms = q.signal_age_ms;
    fill_ratio = q.fill_ratio;
  }

  -- What precedes the call of the venue.
  unfoldable pub prepare :
      ExecutionPolicyConfig W
      → MetadataConfig W
      → OwnershipPolicy
      → Bool
      → Candidate W
      → RiskDecision W
      → Option String
      → Result (Prepared W)
  prepare cfg meta p killed c decision style =
      if not decision.approved
      then ok (refused (risk_rejected decision.action) p)
      else elim (revalidate cfg killed c) [
        | some r ↦ ok (refused r p)
        | none ↦ elim (find_spec meta c.symbol) [
          | none ↦ ok (refused missing_metadata p)
          | some spec ↦ elim (build cfg p c decision spec style) [
            | raised e ↦ raised e
            | ok (failed r, p') ↦ ok (refused (order_build_failed r) p')
            | ok (built plan, p') ↦ ok (ready plan p')
          ]
        ]
      ]

  -- A refusal by permission is caught, any other exception is not.
  unfoldable pub outcome : OrderPlan W → Result (BracketResult W) → Result (ExecutionResult W)
  unfolding conclude
  outcome plan (ok b) = ok (conclude plan b)
  outcome plan (raised permission_error) = ok (aborted live_order_refused)
  outcome plan (raised e) = raised e

module _ {W S : Type 0} ⦃f : Float W⦄ (venue : Venue W S) where
  -- The placement of a built plan.
  unfoldable pub place_plan : OrderPlan W → Terms W → S → Result (ExecutionResult W) × S
  place_plan plan t s = let (r, s') = venue.place plan t s in (outcome plan r, s')

  -- `execute`. The ownership policy comes back with the result, since the build uses up numbers.
  unfoldable pub execute :
      ExecutionPolicyConfig W
      → MetadataConfig W
      → OwnershipPolicy
      → Bool
      → Candidate W
      → RiskDecision W
      → Request W
      → S
      → Result (ExecutionResult W × OwnershipPolicy) × S
  execute cfg meta p killed c decision q s =
      elim (prepare cfg meta p killed c decision q.entry_style) [
        | raised e ↦ (raised e, s)
        | ok (refused r p') ↦ (ok (aborted r, p'), s)
        | ok (ready plan p') ↦
            let (r, s') = place_plan plan (terms cfg c q) s in (Result.map (λ x. (x, p')) r, s')
      ]
