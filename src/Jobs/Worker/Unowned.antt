-- ===== src/Jobs/Worker/Unowned.antt =====
-- What keeps a job without an owner: every step on the store of the jobs but a claim of the job itself.
use crypto_bot_quant.Base.{
  String, Option, none, some, ◌≡◌, ◌≢◌, refl, sym, ap, ◌∙◌, subst, arith, eq_iff, str_eq,
  Bool-cases, Option-cases, inl, inr,
}
use crypto_bot_quant.Base.Dict.{Dict, lookup, insert, lookup-insert}
use crypto_bot_quant.Jobs.Queue.{
  JobStatus, queued, running, succeeded, failed, cancelled, blocked, expired, Job, Store,
  cancel_job, cancel, retry_job, retry, is_retryable, granted,
}
use crypto_bot_quant.Jobs.Worker.{
  claim_job, claim, commit, commit_read, requeue, recover_job, recover_orphan, is_terminal,
}
use crypto_bot_quant.Jobs.Worker.Fencing.{recover-row}

-- The job has a row that no run owns.
abbrev pub IsUnowned : String → Dict Job → Type 0
IsUnowned id jobs = (row : Job) × (lookup id jobs ≡ some row) × (row.run_token ≡ none)

-- A write to another row.
pub other-IsUnowned :
    (id other : String) (row : Job) (jobs : Dict Job)
    → other ≢ id
    → IsUnowned id jobs
    → IsUnowned id (insert other row jobs)
other-IsUnowned id other row jobs n (old, found, free) =
    (old, lookup-insert other id row jobs ∙ ground (arith, n, eq_iff id other, found), free)

abbrev token_of : Option Job → Option String
token_of none = none
token_of (some job) = job.run_token

-- A write to any row that keeps its token.
pub keep-IsUnowned :
    (id other : String) (job row : Job) (jobs : Dict Job)
    → lookup other jobs ≡ some job
    → row.run_token ≡ job.run_token
    → IsUnowned id jobs
    → IsUnowned id (insert other row jobs)
keep-IsUnowned id other job row jobs e keeps (old, found, free) =
    elim (Bool-cases (str_eq id other)) [
      | inr d ↦ (old, lookup-insert other id row jobs ∙ rw d found, free)
      | inl d ↦
          let same : lookup id jobs ≡ some job =
            subst (λ x. lookup x jobs ≡ some job) (sym ((eq_iff id other).0 d)) e in
          (
            row,
            lookup-insert other id row jobs ∙ rw d refl,
            keeps ∙ ap token_of (sym same ∙ found) ∙ free,
          )
    ]

commit-IsUnowned :
    (id worker other : String) (change : Job → Job) (s : Store)
    → ((job : Job) → (change job).run_token ≡ job.run_token)
    → IsUnowned id s.jobs
    → IsUnowned id (commit worker other change s).jobs
unfolding commit
commit-IsUnowned id worker other change s keeps h = elim (Option-cases (lookup other s.jobs)) [
  | inl e ↦ rw (e, commit) h
  | inr (job, e) ↦ rw (e, commit) (keep-IsUnowned id other job (change job) s.jobs e (keeps job) h)
]

pub commit_read-IsUnowned :
    (id worker other : String) (change : Job → Job → Job) (read : Option Job) (s : Store)
    → ((seen job : Job) → (change seen job).run_token ≡ job.run_token)
    → IsUnowned id s.jobs
    → IsUnowned id (commit_read worker other change read s).jobs
unfolding commit_read
commit_read-IsUnowned id worker other change none s keeps h = h
commit_read-IsUnowned id worker other change (some seen) s keeps h =
    commit-IsUnowned id worker other (change seen) s (keeps seen) h

pub requeue-IsUnowned :
    (id worker other : String) (s : Store)
    → IsUnowned id s.jobs
    → IsUnowned id (requeue worker other s).jobs
unfolding requeue
requeue-IsUnowned id worker other s h = elim (Option-cases (lookup other s.jobs)) [
  | inl e ↦ rw (e, requeue) h
  | inr (job, e) ↦
      rw (e, requeue) (keep-IsUnowned id other job (record job { status = queued }) s.jobs e refl h)
]

-- A write to any row that takes its token away.
free-IsUnowned :
    (id other : String) (row : Job) (jobs : Dict Job)
    → row.run_token ≡ none
    → IsUnowned id jobs
    → IsUnowned id (insert other row jobs)
free-IsUnowned id other row jobs none_now (old, found, free) = elim (Bool-cases (str_eq id other)) [
  | inr d ↦ (old, lookup-insert other id row jobs ∙ rw d found, free)
  | inl d ↦ (row, lookup-insert other id row jobs ∙ rw d refl, none_now)
]

pub recover_orphan-IsUnowned :
    (id other : String) (s : Store)
    → IsUnowned id s.jobs
    → IsUnowned id (recover_orphan other s).0.jobs
unfolding recover_orphan recover_job
recover_orphan-IsUnowned id other s h = elim (Option-cases (lookup other s.jobs)) [
  | inl e ↦ rw (e, recover_orphan) h
  | inr (job, e) ↦ elim (Bool-cases (is_terminal job.status)) [
    | inl t ↦ rw (e, recover_orphan) (rw t h)
    | inr t ↦ rw (recover-row other job s e t) (
        free-IsUnowned id other
          (record job { status = queued; run_token = none; max_attempts = granted job }) s.jobs refl
          h)
  ]
]

cancel_job-IsUnowned :
    (id other : String) (job : Job) (s : Store) (status : JobStatus)
    → lookup other s.jobs ≡ some job
    → IsUnowned id s.jobs
    → IsUnowned id (cancel_job other job s status).0.jobs
unfolding cancel_job
cancel_job-IsUnowned id other job s queued e h =
    keep-IsUnowned id other job
      (record job { status = cancelled; failure_reason = some "cancelled before start" }) s.jobs e
      refl h
cancel_job-IsUnowned id other job s running e h = h
cancel_job-IsUnowned id other job s succeeded e h = h
cancel_job-IsUnowned id other job s failed e h = h
cancel_job-IsUnowned id other job s cancelled e h = h
cancel_job-IsUnowned id other job s blocked e h = h
cancel_job-IsUnowned id other job s expired e h = h

pub cancel-IsUnowned :
    (id other : String) (s : Store) → IsUnowned id s.jobs → IsUnowned id (cancel other s).0.jobs
unfolding cancel
cancel-IsUnowned id other s h = elim (Option-cases (lookup other s.jobs)) [
  | inl e ↦ rw (e, cancel) h
  | inr (job, e) ↦ rw (e, cancel) (cancel_job-IsUnowned id other job s job.status e h)
]

pub retry-IsUnowned :
    (id other : String) (s : Store) → IsUnowned id s.jobs → IsUnowned id (retry other s).0.jobs
unfolding retry retry_job
retry-IsUnowned id other s h = elim (Option-cases (lookup other s.jobs)) [
  | inl e ↦ rw (e, retry) h
  | inr (job, e) ↦ elim (Bool-cases (is_retryable job.status)) [
    | inr t ↦ rw (e, retry) (rw t h)
    | inl t ↦
        rw (e, retry)
          (rw t (
            keep-IsUnowned id other job
              (record job {
                status = queued;
                failure_reason = none;
                progress_current = 0;
                max_attempts = granted job;
              })
              s.jobs e refl h))
  ]
]

pub claim-IsUnowned :
    (id worker other token : String) (s : Store)
    → other ≢ id
    → IsUnowned id s.jobs
    → IsUnowned id (claim worker other token s).0.jobs
unfolding claim claim_job
claim-IsUnowned id worker other token s n h = elim (Option-cases (lookup other s.jobs)) [
  | inl e ↦ rw (e, claim) h
  | inr (job, e) ↦ rw (e, claim) (row job job.status)
]
  where
    row :
        (job : Job) (status : JobStatus)
        → IsUnowned id (claim_job worker other token job s status).0.jobs
    row job queued = other-IsUnowned id other _ s.jobs n h
    row job running = h
    row job succeeded = h
    row job failed = h
    row job cancelled = h
    row job blocked = h
    row job expired = h
