-- ===== src/Jobs/Scheduler/Firing.antt =====
-- What a tick of the scheduler enqueues, and that no job fires twice within its interval.
use crypto_bot_quant.Base.{
  Bool, true, false, String, Option, none, some, List, [], ◌∷◌, ◌≡◌, refl, sym, ap, ◌∙◌, subst,
  arith, ◌||◌, ◌&&◌, if◌then◌else◌, str_eq, elem, select, map, Bool-cases, Option-cases, inl, inr,
}
use crypto_bot_quant.Base.Result.{Result, ok}
use crypto_bot_quant.Base.Dict.{lookup, lookup-insert}
use crypto_bot_quant.Base.Float.{Float, ◌-◌, ge}
use crypto_bot_quant.Jobs.Queue.{Store, enqueue}
use crypto_bot_quant.Jobs.Scheduler.{
  ScheduledJob, Redis, is_scheduler_paused, has_elapsed, due, fire_one, works, fire, locked, tick,
}

if-or :
    {A : Type 0} (a b : Bool) (x y z : A)
    → z ≡ (if b then x else y)
    → (if a then x else z) ≡ (if b || a then x else y)
if-or a true x y z h = ground (arith, h)
if-or a false x y z h = ground (arith, h)

elem-if :
    (k x : String) (b : Bool) (xs : List String)
    → elem k (if b then x ∷ xs else xs) ≡ ((b && str_eq k x) || elem k xs)
elem-if k x true xs = refl
elem-if k x false xs = refl

-- The store after each of these jobs, in turn: what a broken enqueue leaves of it, or the store with
-- the job enqueued under its fresh id, by the scheduler, for one attempt.
abbrev pub enqueue_each :
    (String → String) → (String → Option (Store → Store)) → List ScheduledJob → Store → Store
enqueue_each new_id attempt [] s = s
enqueue_each new_id attempt (job ∷ jobs) s =
    enqueue_each new_id attempt jobs (elim (attempt job.job_type) [
      | some broken ↦ broken s
      | none ↦ enqueue (new_id job.job_type) job.job_type "scheduler" none 1 s
    ])

module _ {W : Type 0} ⦃f : Float W⦄ (shown : W → String) (new_id : String → String)
    (attempt : String → Option (Store → Store)) where
  fire_one-store :
      (now : W) (job : ScheduledJob) (r : Redis)
      → (fire_one shown new_id attempt now job r).store
        ≡ enqueue_each new_id attempt (job ∷ []) r.store
  unfolding fire_one
  fire_one-store now job r = elim (Option-cases (attempt job.job_type)) [
    | inl e ↦ rw (e, fire_one, enqueue_each) refl
    | inr (g, e) ↦ rw (e, fire_one, enqueue_each) refl
  ]

  fire-store :
      (now : W) (jobs : List ScheduledJob) (r : Redis)
      → (fire shown new_id attempt now jobs r).0.store ≡ enqueue_each new_id attempt jobs r.store
  unfolding fire
  fire-store now [] r = refl
  fire-store now (job ∷ jobs) r =
      fire-store now jobs (fire_one shown new_id attempt now job r)
      ∙ ap (enqueue_each new_id attempt jobs) (fire_one-store now job r)

  fire-enqueued :
      (now : W) (jobs : List ScheduledJob) (r : Redis)
      → (fire shown new_id attempt now jobs r).1
        ≡ map (λ job. job.job_type) (select (works attempt) jobs)
  unfolding fire
  fire-enqueued now [] r = refl
  fire-enqueued now (job ∷ jobs) r =
      let rest = fire-enqueued now jobs (fire_one shown new_id attempt now job r) in
      elim (Bool-cases (works attempt job)) [
        | inl e ↦ rw e (ap (λ l. job.job_type ∷ l) rest)
        | inr e ↦ rw e rest
      ]

  fire_one-last :
      (now : W) (job : ScheduledJob) (r : Redis) (k : String)
      → lookup k (fire_one shown new_id attempt now job r).last_runs ≡ (
          if works attempt job && str_eq k job.job_type
          then some (shown now)
          else lookup k r.last_runs)
  unfolding fire_one
  fire_one-last now job r k = elim (Option-cases (attempt job.job_type)) [
    | inl e ↦ rw (e, fire_one) (lookup-insert job.job_type k (shown now) r.last_runs)
    | inr (g, e) ↦ rw (e, fire_one) refl
  ]

  fire-last :
      (now : W) (jobs : List ScheduledJob) (r : Redis) (k : String)
      → let (after, enqueued) = fire shown new_id attempt now jobs r in
        lookup k after.last_runs
        ≡ (if elem k enqueued then some (shown now) else lookup k r.last_runs)
  unfolding fire
  fire-last now [] r k = refl
  fire-last now (job ∷ jobs) r k =
      let rest = fire-last now jobs (fire_one shown new_id attempt now job r) k in
      let first = fire_one-last now job r k in
      let more = (fire shown new_id attempt now jobs (fire_one shown new_id attempt now job r)).1 in
      rest
      ∙ if-or (elem k more) (works attempt job && str_eq k job.job_type) (some (shown now))
          (lookup k r.last_runs) _ first
      ∙ ap (λ b. if b then some (shown now) else lookup k r.last_runs)
          (sym (elem-if k job.job_type (works attempt job) more))

  tick-locked :
      (now : W) (schedule jobs : List ScheduledJob) (r : Redis)
      → is_scheduler_paused r ≡ false
      → r.is_locked ≡ false
      → due now schedule r ≡ ok jobs
      → tick shown new_id attempt now schedule r
        ≡ locked shown new_id attempt now (ok jobs) (record r { is_locked = true })
  unfolding tick
  tick-locked now schedule jobs r h k e =
      let start = record r { is_locked = true } in
      let rest = locked shown new_id attempt now (due now schedule r) start in
      ap (λ b. if b then (r, ok []) else if r.is_locked then (r, ok []) else rest) h
      ∙ ap (λ b. if b then (r, ok []) else rest) k
      ∙ ap (λ d. locked shown new_id attempt now d start) e

  -- A tick that is not paused and gets the lock, once it has read which jobs are due, returns the types
  -- of those whose enqueue does not raise, in the order of the schedule, whatever the others do; the
  -- lock is free again; the watermark of a job type moves to now exactly if it is one of them; and the
  -- store of the jobs is the one that is left when each due job in turn is enqueued under its fresh
  -- id, or, where its enqueue raises, does to the store what the broken enqueue does.
  pub tick_fires_due :
      (now : W) (schedule jobs : List ScheduledJob) (r : Redis)
      → is_scheduler_paused r ≡ false
      → r.is_locked ≡ false
      → due now schedule r ≡ ok jobs
      → let (after, outcome) = tick shown new_id attempt now schedule r in
        let enqueued = map (λ job. job.job_type) (select (works attempt) jobs) in
        (outcome ≡ ok enqueued)
        × (after.is_locked ≡ false)
        × ((k : String)
            → lookup k after.last_runs
              ≡ (if elem k enqueued then some (shown now) else lookup k r.last_runs))
        × (after.store ≡ enqueue_each new_id attempt jobs r.store)
  unfolding locked
  tick_fires_due now schedule jobs r h k e =
      let start = record r { is_locked = true } in
      let enqueued = map (λ job. job.job_type) (select (works attempt) jobs) in
      let same = fire-enqueued now jobs start in
      subst
        (λ (x : Redis × Result (List String)).
          (x.1 ≡ ok enqueued)
          × (x.0.is_locked ≡ false)
          × ((k : String)
              → lookup k x.0.last_runs
                ≡ (if elem k enqueued then some (shown now) else lookup k r.last_runs))
          × (x.0.store ≡ enqueue_each new_id attempt jobs r.store))
        (sym (tick-locked now schedule jobs r h k e))
        (
          ap ok same,
          refl,
          λ k.
              fire-last now jobs start k
              ∙ ap (λ l. if elem k l then some (shown now) else lookup k r.last_runs) same,
          fire-store now jobs start,
        )

  -- A job that a tick enqueues is not due before its interval has elapsed, by the clock of the later
  -- tick: the run is recorded under its type, and reading it back gives the time of the tick.
  pub no_early_refire :
      (now later : W) (schedule jobs : List ScheduledJob) (job : ScheduledJob) (r : Redis)
      → is_scheduler_paused r ≡ false
      → r.is_locked ≡ false
      → due now schedule r ≡ ok jobs
      → elem job.job_type (map (λ j. j.job_type) (select (works attempt) jobs)) ≡ true
      → f.parse (shown now) ≡ ok now
      → let after = (tick shown new_id attempt now schedule r).0 in
        has_elapsed later job (lookup job.job_type after.last_runs)
        ≡ ok (ge (later - now) (f.of_int job.interval_sec))
  unfolding has_elapsed
  no_early_refire now later schedule jobs job r h k e m p =
      let marks = (tick_fires_due now schedule jobs r h k e).2 job.job_type in
      let mark =
        marks ∙ ap (λ b. if b then some (shown now) else lookup job.job_type r.last_runs) m in
      rw mark (rw p refl)
