-- ===== src/Jobs/Worker.antt =====
-- src/jobs/worker.py: the steps of a worker on the store of the jobs, and the reaper. Each is one
-- step, but a terminal transition, which reads the row without a lock, is a read and a commit; the
-- outcome of the handler and the fencing tokens are arguments. Time stamps, heartbeats and the events
-- published are left out.
pub mod Fencing
pub mod Unowned
pub mod Reaped
pub mod Delivery
pub mod Restart
use crypto_bot_quant.Base.{
  suc, zero, ℕ, Bool, true, false, not, String, Option, none, some, List, [], ◌∷◌, ◌++◌, leb, ltb,
  if◌then◌else◌, str_eq, elem, select, is_some, ◌&&◌, ◌||◌,
}
use crypto_bot_quant.Base.Dict.{Dict, lookup, insert, get_or}
use crypto_bot_quant.Jobs.Routing.{queue_class, queue_key}
use crypto_bot_quant.Jobs.Queue.{
  JobStatus, queued, running, succeeded, failed, cancelled, expired, Job, Store, push, put_job,
  unflag, granted,
}

-- `_unwatch`: `redis.lrem(processing_key, 0, job_id)`
abbrev pub unwatch : String → String → Store → Store
unwatch worker id s = record s {
  processing =
      insert worker (select (λ x. not (str_eq x id)) (get_or worker [] s.processing)) s.processing;
}

-- The list without its last item, and that item.
unfoldable pub split_last : String → List String → List String × String
split_last x [] = ([], x)
split_last x (y ∷ ys) = let rest = split_last y ys in (x ∷ rest.0, rest.1)

-- `redis.rpoplpush(queue_key, processing_key)`
unfoldable pub rpoplpush : String → String → Store → Store × Option String
rpoplpush key worker s = elim (get_or key [] s.queues) [
  | [] ↦ (s, none)
  | x ∷ xs ↦
      let (left, id) = split_last x xs in
      (
        record s {
          queues = insert key left s.queues;
          processing = insert worker (id ∷ get_or worker [] s.processing) s.processing;
        },
        some id,
      )
]

-- `_pop`: the served classes in order; the blocking wait after them pops the first one later.
unfoldable pub pop : String → List String → Store → Store × Option String
pop worker [] s = (s, none)
pop worker (cls ∷ classes) s =
    let rest = pop worker classes s in
    let tried = rpoplpush (queue_key cls) worker s in elim tried.1 [ some id ↦ tried | none ↦ rest ]

-- What a claim finds: no row, a cancelled job, a job that is not queued, or a job to run, with the
-- attempts that it has made now and may make.
pub data Claim : Type 0 where
  missing was_cancelled : Claim
  skipped : JobStatus → Claim
  claimed : ℕ → ℕ → Claim

-- The claim of `process_job`: one guarded update.
unfoldable pub claim_job : String → String → String → Job → Store → JobStatus → Store × Claim
claim_job worker id token job s cancelled = (unwatch worker id (unflag id s), was_cancelled)
claim_job worker id token job s queued = (
  put_job id (record job { status = running; attempts = suc job.attempts; run_token = some token })
      s,
  claimed (suc job.attempts) job.max_attempts,
)
claim_job worker id token job s other = (unwatch worker id s, skipped other)

unfoldable pub claim : String → String → String → Store → Store × Claim
claim worker id token s = elim (lookup id s.jobs) [
  | none ↦ (unwatch worker id s, missing)
  | some job ↦ claim_job worker id token job s job.status
]

-- `_superseded`: another run owns the job, or none.
abbrev pub superseded : Job → String → Bool
superseded job token = elim job.run_token [ none ↦ true | some t ↦ not (str_eq t token) ]

-- The read of the row in a terminal transition, with the check of the token; none is a missing row or
-- a superseded run. The read takes no lock on the row.
unfoldable pub read_row : String → String → Store → Option Job
read_row id token s = elim (lookup id s.jobs) [
  | none ↦ none
  | some job ↦ if superseded job token then none else some job
]

-- The commit of a terminal transition: the assigned columns are written to the row that is there then.
-- No row is ever deleted.
unfoldable pub commit : String → String → (Job → Job) → Store → Store
commit worker id change s = elim (lookup id s.jobs) [
  | none ↦ s
  | some job ↦ unwatch worker id (unflag id (put_job id (change job) s))
]

-- What a terminal transition does after its read, with the change that it makes of the row it read.
unfoldable pub commit_read : String → String → (Job → Job → Job) → Option Job → Store → Store
commit_read worker id change none s = unwatch worker id s
commit_read worker id change (some read) s = commit worker id (change read) s

-- A terminal transition, without a step of another worker between its read and its commit.
unfoldable pub finish : String → String → String → (Job → Job → Job) → Store → Store
finish worker id token change s = commit_read worker id change (read_row id token s) s

-- `if job.progress_total and job.progress_current < job.progress_total`, on the row that was read
abbrev pub filled : Job → Job → ℕ
filled read job =
    if ltb read.progress_current read.progress_total
    then read.progress_total
    else job.progress_current

-- The change of `_finish_succeeded`, with the artifact and the message of the result.
abbrev pub succeed : Option String → String → Job → Job → Job
succeed artifact message read job = record job {
  status = succeeded;
  progress_current = filled read job;
  artifact_uri = artifact;
  progress_message = if str_eq message "" then job.progress_message else message;
}

-- The change of `_finish_failed`
abbrev pub fail : String → String → Job → Job → Job
fail reason hint read job = record job {
  status = failed;
  failure_reason = some reason;
  next_action_hint = some hint;
}

-- The change of `_finish_cancelled`
abbrev pub cancel_run : Job → Job → Job
cancel_run read job = record job { status = cancelled; failure_reason = some "cancelled" }

unfoldable pub finish_succeeded : String → String → String → Option String → String → Store → Store
finish_succeeded worker id token artifact message s =
    if elem id s.cancel_flags
    then finish worker id token cancel_run s
    else finish worker id token (succeed artifact message) s

-- `_requeue`
unfoldable pub requeue : String → String → Store → Store
requeue worker id s = elim (lookup id s.jobs) [
  | none ↦ unwatch worker id s
  | some job ↦
      unwatch worker id (push job.job_type id (put_job id (record job { status = queued }) s))
]

-- How a handler's run ends: there is no handler, the handler sees the cancellation, it raises, or it
-- returns with an artifact and a message.
pub data Outcome : Type 0 where
  stopped : Outcome
  unregistered raised : String → Outcome
  returned : Option String → String → Outcome

-- The rest of `process_job` after a claim with these attempts.
unfoldable pub end_run : String → String → String → ℕ → ℕ → Outcome → Store → Store
end_run worker id token attempts max_attempts (unregistered reason) s =
    finish worker id token (fail reason "Register a handler for this job_type (Appendix B.7).") s
end_run worker id token attempts max_attempts stopped s = finish worker id token cancel_run s
end_run worker id token attempts max_attempts (raised reason) s =
    if ltb attempts max_attempts
    then requeue worker id s
    else finish worker id token
        (fail reason "Inspect job logs; fix the handler or inputs, then retry the job.") s
end_run worker id token attempts max_attempts (returned artifact message) s =
    finish_succeeded worker id token artifact message s

-- `process_job` without a step of another worker in between.
unfoldable pub process_job : String → String → String → Outcome → Store → Store
process_job worker id token outcome s =
    let (after, found) = claim worker id token s in
    elim found [
      | claimed attempts max_attempts ↦
          if elem id after.cancel_flags
          then finish worker id token cancel_run after
          else end_run worker id token attempts max_attempts outcome after
      | _ ↦ after
    ]

abbrev pub is_terminal : JobStatus → Bool
is_terminal succeeded = true
is_terminal failed = true
is_terminal cancelled = true
is_terminal expired = true
is_terminal _ = false

-- `_recover_orphan`, on the job's row
unfoldable pub recover_job : String → Job → Store → Store × Bool
recover_job id job s = if is_terminal job.status then (s, false) else (
  push job.job_type id (
      unflag id (
        put_job id (record job { status = queued; run_token = none; max_attempts = granted job })
          s)),
  true,
)

unfoldable pub recover_orphan : String → Store → Store × Bool
recover_orphan id s = elim (lookup id s.jobs) [
  | none ↦ (s, false)
  | some job ↦ recover_job id job s
]

-- The draining of a dead worker's processing list, and the number of jobs queued again.
unfoldable pub drain : List String → Store → Store × ℕ
drain [] s = (s, 0)
drain (id ∷ ids) s =
    let (after, requeued) = recover_orphan id s in
    let (done, count) = drain ids after in (done, if requeued then suc count else count)

-- `reap_orphaned_jobs`, on one dead worker's list, by the holder of the lock.
unfoldable pub reap : String → Store → Store × ℕ
reap worker s =
    drain (get_or worker [] s.processing) (record s { processing = insert worker [] s.processing })
