-- ===== src/Jobs/Worker/Reaped.antt =====
-- What a run that the reaper has taken a job from can do to the job, over the steps of the workers and
-- of the operator.
use crypto_bot_quant.Base.{
  sym, subst, ℕ, false, String, Option, none, some, ◌≡◌, ◌≢◌, refl, ap, arith,
}
use crypto_bot_quant.Base.Dict.{lookup}
use crypto_bot_quant.Jobs.Queue.{
  queued, Job, Store, enqueue, cancel, retry, granted, push, put_job, unflag,
}
use crypto_bot_quant.Jobs.Worker.{
  claim, read_row, commit, commit_read, cancel_run, fail, succeed, requeue, recover_orphan,
  is_terminal,
}
use crypto_bot_quant.Jobs.Worker.Unowned.{
  IsUnowned, other-IsUnowned, keep-IsUnowned, commit_read-IsUnowned, requeue-IsUnowned,
  recover_orphan-IsUnowned, cancel-IsUnowned, retry-IsUnowned, claim-IsUnowned,
}
use crypto_bot_quant.Jobs.Worker.Fencing.{read_row-superseded, recover-row, lookup-put}

-- The steps of the workers, the reaper and the operator, but a claim of this job: the commit of a
-- terminal transition is one of any run, whatever row it has read and whenever.
pub data Step (id : String) : Store → Store → Type 0 where
  claims :
      (worker other token : String) (s : Store)
      → other ≢ id
      → Step id s (claim worker other token s).0
  cancels_run :
      (worker other : String) (read : Option Job) (s : Store)
      → Step id s (commit_read worker other cancel_run read s)
  fails :
      (worker other reason hint : String) (read : Option Job) (s : Store)
      → Step id s (commit_read worker other (fail reason hint) read s)
  succeeds :
      (worker other message : String) (artifact : Option String) (read : Option Job) (s : Store)
      → Step id s (commit_read worker other (succeed artifact message) read s)
  requeues : (worker other : String) (s : Store) → Step id s (requeue worker other s)
  recovers : (other : String) (s : Store) → Step id s (recover_orphan other s).0
  cancels : (other : String) (s : Store) → Step id s (cancel other s).0
  retries : (other : String) (s : Store) → Step id s (retry other s).0
  enqueues :
      (other job_type by : String) (gate : Option String) (max_attempts : ℕ) (s : Store)
      → other ≢ id
      → Step id s (enqueue other job_type by gate max_attempts s)
  -- Progress and the like, on any row: the token stays.
  reports :
      (other : String) (job row : Job) (s : Store)
      → lookup other s.jobs ≡ some job
      → row.run_token ≡ job.run_token
      → Step id s (put_job other row s)
  -- Whatever leaves the rows: pops, processing lists, cancel flags.
  moves : (s t : Store) → t.jobs ≡ s.jobs → Step id s t

pub data Steps (id : String) (s : Store) : Store → Type 0 where
  here : Steps id s s
  next : {t u : Store} → Steps id s t → Step id t u → Steps id s u

Step-IsUnowned :
    {id : String} {s t : Store} → Step id s t → IsUnowned id s.jobs → IsUnowned id t.jobs
unfolding enqueue
Step-IsUnowned {id} (claims worker other token s n) h = claim-IsUnowned id worker other token s n h
Step-IsUnowned {id} (cancels_run worker other read s) h =
    commit_read-IsUnowned id worker other cancel_run read s (λ seen job. refl) h
Step-IsUnowned {id} (fails worker other reason hint read s) h =
    commit_read-IsUnowned id worker other (fail reason hint) read s (λ seen job. refl) h
Step-IsUnowned {id} (succeeds worker other message artifact read s) h =
    commit_read-IsUnowned id worker other (succeed artifact message) read s (λ seen job. refl) h
Step-IsUnowned {id} (requeues worker other s) h = requeue-IsUnowned id worker other s h
Step-IsUnowned {id} (recovers other s) h = recover_orphan-IsUnowned id other s h
Step-IsUnowned {id} (cancels other s) h = cancel-IsUnowned id other s h
Step-IsUnowned {id} (retries other s) h = retry-IsUnowned id other s h
Step-IsUnowned {id} (enqueues other job_type by gate max_attempts s n) h =
    other-IsUnowned id other _ s.jobs n h
Step-IsUnowned {id} (reports other job row s e keeps) h =
    keep-IsUnowned id other job row s.jobs e keeps h
Step-IsUnowned {id} (moves s t e) h = subst (IsUnowned id) (sym e) h

Steps-IsUnowned :
    {id : String} {s t : Store} → Steps id s t → IsUnowned id s.jobs → IsUnowned id t.jobs
Steps-IsUnowned here h = h
Steps-IsUnowned (next r st) h = Step-IsUnowned st (Steps-IsUnowned r h)

read_row-unowned :
    (id token : String) (s : Store) → IsUnowned id s.jobs → read_row id token s ≡ none
read_row-unowned id token s (row, found, free) =
    read_row-superseded id token row s found (ground (arith, free))

-- A run that the reaper has taken a job from cannot end it: once the reaper has queued the job again,
-- and as long as the job is not claimed, whatever steps the workers, the reaper and the operator take,
-- a terminal transition of any run that reads the row then finds no run to end, and its commit, at any
-- later time, changes no row. A transition that has read the row before the reaper is not bounded, nor
-- is the requeue of a run that raises.
pub reaped_run_is_fenced :
    (id worker token : String) (change : Job → Job → Job) (job : Job) (s at_read at_commit : Store)
    → lookup id s.jobs ≡ some job
    → is_terminal job.status ≡ false
    → Steps id (recover_orphan id s).0 at_read
    → (read_row id token at_read ≡ none)
      × ((commit_read worker id change (read_row id token at_read) at_commit).jobs ≡ at_commit.jobs)
unfolding commit_read
reaped_run_is_fenced id worker token change job s at_read at_commit e t steps =
    let row = record job { status = queued; run_token = none; max_attempts = granted job } in
    let start : IsUnowned id (recover_orphan id s).0.jobs =
      rw (recover-row id job s e t) (row, lookup-put id row s.jobs, refl) in
    let ended = read_row-unowned id token at_read (Steps-IsUnowned steps start) in
    (ended, ap (λ (read : Option Job). (commit_read worker id change read at_commit).jobs) ended)

commit-row :
    (id worker : String) (change : Job → Job) (row : Job) (s : Store)
    → lookup id s.jobs ≡ some row
    → lookup id (commit worker id change s).jobs ≡ some (change row)
unfolding commit
commit-row id worker change row s e = rw (e, commit) (lookup-put id (change row) s.jobs)

-- A terminal transition that has read the row before the reaper commits after it: the job is ended,
-- and its id is still in the queue.
late_commit_ends :
    (id worker token : String) (change : Job → Job → Job) (job : Job) (s : Store)
    → read_row id token s ≡ some job
    → lookup id s.jobs ≡ some job
    → is_terminal job.status ≡ false
    → let after = commit_read worker id change (read_row id token s) (recover_orphan id s).0 in
      lookup id after.jobs
      ≡ some (
          change job (record job { status = queued; run_token = none; max_attempts = granted job }))
unfolding commit_read
late_commit_ends id worker token change job s r e t =
    let row = record job { status = queued; run_token = none; max_attempts = granted job } in
    rw (r, recover-row id job s e t)
      (commit-row id worker (change job) row (push job.job_type id (unflag id (put_job id row s)))
        (lookup-put id row s.jobs))
