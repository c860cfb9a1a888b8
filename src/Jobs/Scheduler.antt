-- ===== src/Jobs/Scheduler.antt =====
-- src/scheduler.py: the scheduler of the recurring jobs, over the job queue. `shown` is `str` on a
-- float; `attempt` says which enqueues raise, and what such a one leaves of the store; `new_id` gives
-- the fresh id of a job. The expiry of the lock is left out, and so is the sleep between ticks.
pub mod Firing
use Prim.Native.String as Text
use crypto_bot_quant.Base.{
  ℕ, suc, zero, Bool, true, false, not, String, Option, none, some, List, [], ◌∷◌, if◌then◌else◌,
  str_eq, is_some,
}
use crypto_bot_quant.Base.Int.{ℤ}
use crypto_bot_quant.Base.Result.{Result, ok, raised}
use crypto_bot_quant.Base.Result as Result
use crypto_bot_quant.Base.Dict.{Dict, lookup, insert}
use crypto_bot_quant.Base.Float.{Float, ◌-◌, ge}
use crypto_bot_quant.Jobs.Queue.{Store, enqueue}

-- `is_enabled` is what the toggle says of the settings at hand.
pub record ScheduledJob : Type 0 where
  pub job_type : String
  pub interval_sec : ℤ
  pub is_enabled : Bool

-- The keys of the scheduler in Redis, and the store of the jobs.
pub record Redis : Type 0 where
  pub last_runs : Dict String
  pub is_locked : Bool
  pub paused : Option String
  pub store : Store

abbrev hour : ℤ
hour = ℤ.pos 3600

abbrev six_hours : ℤ
six_hours = ℤ.pos 21600

-- `default_schedule`, under the two toggles
abbrev pub default_schedule : Bool → Bool → List ScheduledJob
default_schedule background_research ml_shadow =
    record {
      job_type = "run_strategy_validation";
      interval_sec = six_hours;
      is_enabled = background_research;
    }
    ∷ record {
      job_type = "run_paper_session";
      interval_sec = hour;
      is_enabled = background_research;
    }
    ∷ record { job_type = "run_ml_shadow_pass"; interval_sec = hour; is_enabled = ml_shadow }
    ∷ []

-- `is_scheduler_paused`
unfoldable pub is_scheduler_paused : Redis → Bool
is_scheduler_paused r = elim r.paused [ none ↦ false | some s ↦ not (str_eq s "") ]

unfoldable pub set_scheduler_paused : Bool → Redis → Redis
set_scheduler_paused paused r = record r { paused = if paused then some "1" else none }

module _ {W : Type 0} ⦃f : Float W⦄ where
  -- The interval since the last run has elapsed, or there was no run.
  unfoldable pub has_elapsed : W → ScheduledJob → Option String → Result Bool
  has_elapsed now job none = ok true
  has_elapsed now job (some last) =
      Result.map (λ before. ge (now - before) (f.of_int job.interval_sec)) (f.parse last)

  -- `due`
  unfoldable pub due : W → List ScheduledJob → Redis → Result (List ScheduledJob)
  due now [] r = ok []
  due now (job ∷ jobs) r =
      let later = due now jobs r in
      if job.is_enabled
      then Result.◌>>=◌ (has_elapsed now job (lookup job.job_type r.last_runs))
          (λ elapsed. Result.map (λ rest. if elapsed then job ∷ rest else rest) later)
      else later

-- The enqueue of the job does not raise.
abbrev pub works : (String → Option (Store → Store)) → ScheduledJob → Bool
works attempt job = not (is_some (attempt job.job_type))

module _ {W : Type 0} ⦃f : Float W⦄ (shown : W → String) (new_id : String → String)
    (attempt : String → Option (Store → Store)) where
  -- One guarded enqueue: on success the watermark moves.
  unfoldable pub fire_one : W → ScheduledJob → Redis → Redis
  fire_one now job r = elim (attempt job.job_type) [
    | some broken ↦ record r { store = broken r.store }
    | none ↦ record r {
      store = enqueue (new_id job.job_type) job.job_type "scheduler" none 1 r.store;
      last_runs = insert job.job_type (shown now) r.last_runs;
    }
  ]

  -- The loop over the due jobs, with the types of those enqueued.
  unfoldable pub fire : W → List ScheduledJob → Redis → Redis × List String
  fire now [] r = (r, [])
  fire now (job ∷ jobs) r =
      let (after, enqueued) = fire now jobs (fire_one now job r) in
      (after, if works attempt job then job.job_type ∷ enqueued else enqueued)

  -- The part of `tick` that holds the lock.
  unfoldable pub locked : W → Result (List ScheduledJob) → Redis → Redis × Result (List String)
  locked now (raised e) r = (record r { is_locked = false }, raised e)
  locked now (ok jobs) r =
      let (after, enqueued) = fire now jobs r in (record after { is_locked = false }, ok enqueued)

  unfoldable pub tick : W → List ScheduledJob → Redis → Redis × Result (List String)
  tick now schedule r =
      if is_scheduler_paused r
      then (r, ok [])
      else if r.is_locked
      then (r, ok [])
      else locked now (due now schedule r) (record r { is_locked = true })

  -- `run`, one tick at each of these times.
  unfoldable pub run : Bool → List W → List ScheduledJob → Redis → Redis
  run scheduler_enabled [] schedule r = r
  run scheduler_enabled (now ∷ times) schedule r =
      run scheduler_enabled times schedule
        (if scheduler_enabled then (tick now schedule r).0 else r)
