-- ===== src/Jobs/Worker/Fencing.antt =====
-- Which runs of a job may end it, and which job may start.
use crypto_bot_quant.Base.{
  suc, ℕ, true, false, not, String, Option, none, some, List, [], ◌∷◌, ◌≡◌, ◌≢◌, refl, sym, ap, ◌∙◌,
  subst, ltb, str_eq, eq_iff, elem, Bool-cases, Option-cases, inl, inr,
}
use crypto_bot_quant.Base.Dict.{Dict, lookup, insert, lookup-insert}
use crypto_bot_quant.Jobs.Routing.{queue_class, queue_key}
use crypto_bot_quant.Jobs.Queue.{
  JobStatus, queued, running, succeeded, failed, cancelled, blocked, expired, queue_of, Job, Store,
  put_job, flag, cancel_job, cancel, push, unflag, granted,
}
use crypto_bot_quant.Jobs.Worker.{
  skipped, claimed, was_cancelled, claim_job, claim, superseded, read_row, commit_read, requeue,
  raised, end_run, recover_job, recover_orphan, is_terminal,
}

pub str_eq_refl : (s : String) → str_eq s s ≡ true
str_eq_refl s = (eq_iff s s).1 refl

str_differ : (s t : String) → s ≢ t → not (str_eq s t) ≡ true
str_differ s t n = elim (Bool-cases (str_eq s t)) [
  | inl e ↦ absurd (n ((eq_iff s t).0 e))
  | inr e ↦ rw e refl
]

-- The entry that was just written.
pub lookup-put :
    {V : Type 0} (id : String) (job : V) (jobs : Dict V) → lookup id (insert id job jobs) ≡ some job
lookup-put id job jobs = lookup-insert id id job jobs ∙ rw (str_eq_refl id) refl

pub read_row-superseded :
    (id token : String) (job : Job) (s : Store)
    → lookup id s.jobs ≡ some job
    → superseded job token ≡ true
    → read_row id token s ≡ none
unfolding read_row
read_row-superseded id token job s e h = rw (e, read_row) (rw h refl)

-- The state of a job once it is queued again by the reaper.
pub recover-row :
    (id : String) (job : Job) (s : Store)
    → lookup id s.jobs ≡ some job
    → is_terminal job.status ≡ false
    → recover_orphan id s ≡ (
      push job.job_type id (
          unflag id (
            put_job id
              (record job { status = queued; run_token = none; max_attempts = granted job })
              s)),
      true,
    )
unfolding recover_orphan recover_job
recover-row id job s e h = rw (e, recover_orphan) (rw h refl)

-- The row of a job that a run with this token has claimed.
abbrev pub started : Job → String → Job
started job token = record job {
  status = running;
  attempts = suc job.attempts;
  run_token = some token;
}

-- What a claim that succeeds has found and done.
claim_job-claimed :
    (worker id token : String) (job : Job) (s : Store) (status : JobStatus)
    (attempts max_attempts : ℕ)
    → (claim_job worker id token job s status).1 ≡ claimed attempts max_attempts
    → (status ≡ queued)
      × ((claim_job worker id token job s status).0 ≡ put_job id (started job token) s)
unfolding claim_job
claim_job-claimed worker id token job s queued attempts max_attempts h = (refl, refl)
claim_job-claimed worker id token job s cancelled attempts max_attempts h = cc
claim_job-claimed worker id token job s running attempts max_attempts h = cc
claim_job-claimed worker id token job s succeeded attempts max_attempts h = cc
claim_job-claimed worker id token job s failed attempts max_attempts h = cc
claim_job-claimed worker id token job s blocked attempts max_attempts h = cc
claim_job-claimed worker id token job s expired attempts max_attempts h = cc

pub claim-claimed :
    (worker id token : String) (s : Store) (attempts max_attempts : ℕ)
    → (claim worker id token s).1 ≡ claimed attempts max_attempts
    → (job : Job) × (lookup id s.jobs ≡ some job)
      × (job.status ≡ queued)
      × ((claim worker id token s).0 ≡ put_job id (started job token) s)
unfolding claim
claim-claimed worker id token s attempts max_attempts = elim (Option-cases (lookup id s.jobs)) [
  | inl e ↦ rw (e, claim) (λ h. cc)
  | inr (job, e) ↦
      rw (e, claim)
        (λ h.
          let (was, after) =
            claim_job-claimed worker id token job s job.status attempts max_attempts h in
          (job, refl, was, after))
]

-- A claim on a job that is running changes no row and is skipped.
claim-running :
    (worker id token : String) (job : Job) (s : Store)
    → lookup id s.jobs ≡ some job
    → job.status ≡ running
    → ((claim worker id token s).1 ≡ skipped running) × ((claim worker id token s).0.jobs ≡ s.jobs)
unfolding claim claim_job
claim-running worker id token job s e h =
    rw (e, claim)
      (subst
        (λ st.
          ((claim_job worker id token job s st).1 ≡ skipped running)
          × ((claim_job worker id token job s st).0.jobs ≡ s.jobs))
        (sym h) (refl, refl))

-- A job is claimed once: right after a claim that succeeds, the claim of any worker, the same one
-- included, is skipped and changes no row, and a terminal transition (the run succeeded, failed or was
-- cancelled) with another token that reads the row then finds no run to end and, whenever it commits,
-- changes no row. The requeue of a run that raises checks no token, and is not bounded by this.
pub claim_is_exclusive :
    (worker worker' id token token' : String) (change : Job → Job → Job) (s at_commit : Store)
    (attempts max_attempts : ℕ)
    → (claim worker id token s).1 ≡ claimed attempts max_attempts
    → token ≢ token'
    → let s1 = (claim worker id token s).0 in
      ((claim worker' id token' s1).1 ≡ skipped running)
      × ((claim worker' id token' s1).0.jobs ≡ s1.jobs)
      × (read_row id token' s1 ≡ none)
      × ((commit_read worker' id change (read_row id token' s1) at_commit).jobs ≡ at_commit.jobs)
unfolding commit_read
claim_is_exclusive worker worker' id token token' change s at_commit attempts max_attempts h n =
    let (job, e, was, after) = claim-claimed worker id token s attempts max_attempts h in
    let row = started job token in
    let s1 = put_job id row s in
    let found = lookup-put id row s.jobs in
    let (skips, keeps) = claim-running worker' id token' row s1 found refl in
    let ended = read_row-superseded id token' row s1 found (str_differ token token' n) in
    let fenced =
      ap (λ (read : Option Job). (commit_read worker' id change read at_commit).jobs) ended in
    rw after (skips, keeps, ended, fenced)

pub queue_of-push :
    (job_type id : String) (s : Store)
    → queue_of job_type (push job_type id s) ≡ id ∷ queue_of job_type s
queue_of-push job_type id s =
    ap (λ (o : Option (List String)). elim o [ none ↦ [] | some v ↦ v ])
      (lookup-put (queue_key (queue_class job_type)) (id ∷ queue_of job_type s) s.queues)

pub elem-push :
    (job_type id : String) (s : Store) → elem id (queue_of job_type (push job_type id s)) ≡ true
elem-push job_type id s =
    subst (λ q. elem id q ≡ true) (sym (queue_of-push job_type id s)) (rw (str_eq_refl id) refl)

-- The job of a run that raises with attempts left is queued again, whoever owns it: a run that the
-- reaper has taken the job from, or a job that another run has finished since, included.
pub stale_raise_requeues :
    (worker id token reason : String) (attempts max_attempts : ℕ) (job : Job) (s : Store)
    → lookup id s.jobs ≡ some job
    → superseded job token ≡ true
    → ltb attempts max_attempts ≡ true
    → let s1 = end_run worker id token attempts max_attempts (raised reason) s in
      (lookup id s1.jobs ≡ some (record job { status = queued }))
      × (elem id (queue_of job.job_type s1) ≡ true)
unfolding end_run requeue
stale_raise_requeues worker id token reason attempts max_attempts job s e sup l =
    let row = record job { status = queued } in
    rw (l, e, requeue) (lookup-put id row s.jobs, elem-push job.job_type id (put_job id row s))

cancel-queued :
    (id : String) (job : Job) (s : Store)
    → lookup id s.jobs ≡ some job
    → job.status ≡ queued
    → cancel id s ≡ (
      flag id (
          put_job id
            (record job { status = cancelled; failure_reason = some "cancelled before start" })
            s),
      true,
    )
unfolding cancel cancel_job
cancel-queued id job s e h = rw (e, cancel) (ap (cancel_job id job s) h)

claim-cancelled :
    (worker id token : String) (job : Job) (s : Store)
    → lookup id s.jobs ≡ some job
    → job.status ≡ cancelled
    → ((claim worker id token s).1 ≡ was_cancelled) × ((claim worker id token s).0.jobs ≡ s.jobs)
unfolding claim claim_job
claim-cancelled worker id token job s e h =
    rw (e, claim)
      (subst
        (λ st.
          ((claim_job worker id token job s st).1 ≡ was_cancelled)
          × ((claim_job worker id token job s st).0.jobs ≡ s.jobs))
        (sym h) (refl, refl))

-- A job that is cancelled before it starts never runs: the cancellation succeeds, and a claim after
-- it, of any worker, finds the job cancelled and leaves its row.
pub cancelled_before_start :
    (worker id token : String) (job : Job) (s : Store)
    → lookup id s.jobs ≡ some job
    → job.status ≡ queued
    → let s1 = (cancel id s).0 in
      ((cancel id s).1 ≡ true)
      × ((claim worker id token s1).1 ≡ was_cancelled)
      × ((claim worker id token s1).0.jobs ≡ s1.jobs)
cancelled_before_start worker id token job s e h =
    let row = record job { status = cancelled; failure_reason = some "cancelled before start" } in
    let s1 = flag id (put_job id row s) in
    let (found, kept) = claim-cancelled worker id token row s1 (lookup-put id row s.jobs) refl in
    rw (cancel-queued id job s e h) (refl, found, kept)
