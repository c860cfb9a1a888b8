-- ===== src/Tests/Queueing.antt =====
-- The job queue and the scheduler at concrete inputs.
use crypto_bot_quant.Base.{
  true, false, String, Option, none, some, List, [], ◌∷◌, ◌≡◌, refl, elem, if◌then◌else◌, map,
  select,
}
use crypto_bot_quant.Base.Result.{ok, raised}
use crypto_bot_quant.Base.Dict.{lookup}
use crypto_bot_quant.Base.Float.{Float}
use crypto_bot_quant.Base.Nano.{Nano, nano_float, dec}
use crypto_bot_quant.Base.Int.{pos}
use crypto_bot_quant.Jobs.Queue.{queued, running, Job, Store, queue_of}
use crypto_bot_quant.Jobs.Worker.{
  claim, claim_job, claimed, skipped, cancel_run, recover_orphan, requeue, read_row, commit_read,
  raised, end_run,
}
use crypto_bot_quant.Jobs.Worker.Fencing.{claim_is_exclusive, stale_raise_requeues}
use crypto_bot_quant.Jobs.Worker.Reaped.{here, next, requeues, reaped_run_is_fenced}
use crypto_bot_quant.Jobs.Scheduler.{
  ScheduledJob, Redis, due, has_elapsed, tick, works, is_scheduler_paused,
}
use crypto_bot_quant.Jobs.Scheduler.Firing.{enqueue_each, tick_fires_due}
use crypto_bot_quant.Tests.Samples.{differ}

abbrev backtest : Job
backtest = record {
  job_type = "run_backtest";
  status = queued;
  requested_by = "operator";
  related_gate_id = none;
  progress_current = 0;
  progress_total = 0;
  progress_message = "";
  artifact_uri = none;
  failure_reason = none;
  next_action_hint = none;
  attempts = 0;
  max_attempts = 2;
  run_token = none;
}

abbrev store_with : Job → Store
store_with job = record {
  jobs = ("job_1", job) ∷ [];
  queues = ("qbot:queue:backtest", "job_1" ∷ "job_0" ∷ []) ∷ [];
  processing = [];
  cancel_flags = "job_1" ∷ [];
}

claim_run : (claim "w1" "job_1" "t1" (store_with backtest)).1 ≡ claimed 1 2
unfolding claim claim_job lookup
claim_run = refl

claim_is_exclusive_example :
    let s1 = (claim "w1" "job_1" "t1" (store_with backtest)).0 in
    ((claim "w2" "job_1" "t2" s1).1 ≡ skipped running)
    × ((claim "w2" "job_1" "t2" s1).0.jobs ≡ s1.jobs)
    × (read_row "job_1" "t2" s1 ≡ none)
    × ((commit_read "w2" "job_1" cancel_run (read_row "job_1" "t2" s1) (store_with backtest)).jobs
        ≡ (store_with backtest).jobs)
claim_is_exclusive_example =
    claim_is_exclusive "w1" "w2" "job_1" "t1" "t2" cancel_run (store_with backtest)
      (store_with backtest) 1 2 claim_run (differ "t1" "t2" refl)

-- A run of the first worker.
abbrev started_job : Job
started_job = record backtest { status = running; attempts = 1; run_token = some "t1" }

started_found : lookup "job_1" (store_with started_job).jobs ≡ some started_job
unfolding lookup
started_found = refl

-- The first run raises after the reaper has taken the job from it, and commits after another worker
-- has claimed the job.
reaped_run_is_fenced_example :
    let s1 = (recover_orphan "job_1" (store_with started_job)).0 in
    let s2 = requeue "w1" "job_1" s1 in
    let s3 = (claim "w2" "job_1" "t2" s2).0 in
    (read_row "job_1" "t1" s2 ≡ none)
    × ((commit_read "w1" "job_1" cancel_run (read_row "job_1" "t1" s2) s3).jobs ≡ s3.jobs)
reaped_run_is_fenced_example =
    let s1 = (recover_orphan "job_1" (store_with started_job)).0 in
    let s2 = requeue "w1" "job_1" s1 in
    reaped_run_is_fenced "job_1" "w1" "t1" cancel_run started_job (store_with started_job) s2
      (claim "w2" "job_1" "t2" s2).0 started_found refl (next here (requeues "w1" "job_1" s1))

-- The second worker raises on its first of two attempts, when the first one runs the job.
stale_raise_requeues_example :
    let s1 = end_run "w2" "job_1" "t2" 1 2 (raised "OSError") (store_with started_job) in
    (lookup "job_1" s1.jobs ≡ some (record started_job { status = queued }))
    × (elem "job_1" (queue_of "run_backtest" s1) ≡ true)
stale_raise_requeues_example =
    stale_raise_requeues "w2" "job_1" "t2" "OSError" 1 2 started_job (store_with started_job)
      started_found refl refl

abbrev hourly : ScheduledJob
hourly = record { job_type = "run_paper_session"; interval_sec = pos 3600; is_enabled = true }

abbrev schedule : List ScheduledJob
schedule = hourly ∷ record hourly { job_type = "run_ml_shadow_pass"; is_enabled = false } ∷ []

abbrev redis : Redis
redis = record {
  last_runs = [];
  is_locked = false;
  paused = none;
  store = record { jobs = []; queues = []; processing = []; cancel_flags = [] };
}

abbrev healthy : String → Option (Store → Store)
healthy job_type = none

due_run : due (dec 7200 0) schedule redis ≡ ok (hourly ∷ [])
unfolding due has_elapsed lookup
due_run = refl

unpaused : is_scheduler_paused redis ≡ false
unfolding is_scheduler_paused
unpaused = refl

tick_fires_due_example :
    let (after, outcome) = tick (λ x. "7200.0") (λ t. t) healthy (dec 7200 0) schedule redis in
    let enqueued = map (λ job. job.job_type) (select (works healthy) (hourly ∷ [])) in
    (outcome ≡ ok enqueued)
    × (after.is_locked ≡ false)
    × ((k : String)
        → lookup k after.last_runs
          ≡ (if elem k enqueued then some "7200.0" else lookup k redis.last_runs))
    × (after.store ≡ enqueue_each (λ t. t) healthy (hourly ∷ []) redis.store)
tick_fires_due_example =
    tick_fires_due (λ x. "7200.0") (λ t. t) healthy (dec 7200 0) schedule (hourly ∷ []) redis
      unpaused refl due_run

-- The reading of a text as a number; it is asked only for the one that the tick wrote.
abbrev reading : Float Nano
reading = record nano_float { parse = λ s. ok (dec 7200 0) }
