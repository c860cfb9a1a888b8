-- ===== src/Jobs/Worker/Restart.antt =====
-- A job that is queued again, by an operator's retry or by the reaper, starts once more.
use crypto_bot_quant.Base.{
  suc, true, false, not, String, some, List, [], ◌∷◌, ◌≡◌, refl, ap, ◌∙◌, arith, leb, str_eq,
  eq_iff, elem, select, Bool-cases, Option-cases, inl, inr,
}
use crypto_bot_quant.Base.Dict.{lookup}
use crypto_bot_quant.Jobs.Queue.{
  queued, Job, Store, queue_of, put_job, retry, retry_job, is_retryable, granted, push, unflag,
}
use crypto_bot_quant.Jobs.Worker.{
  claim, claim_job, claimed, recover_orphan, recover_job, is_terminal,
}
use crypto_bot_quant.Jobs.Worker.Fencing.{lookup-put, elem-push}

elem-remove :
    (id : String) (xs : List String) → elem id (select (λ x. not (str_eq x id)) xs) ≡ false
elem-remove id [] = refl
elem-remove id (x ∷ xs) = ground (arith, elem-remove id xs, eq_iff x id, eq_iff id x)

-- The row of a job that is queued again: it has an attempt left.
abbrev IsFresh : Job → Job → Type 0
IsFresh job row =
    (row.status ≡ queued) × (row.attempts ≡ job.attempts) × (row.max_attempts ≡ granted job)

-- A job with its row so, in its queue and without a cancel flag, starts at the next claim.
abbrev pub Restarts : String → Job → Store → Type 0
Restarts id job s =
    (elem id (queue_of job.job_type s) ≡ true)
    × (elem id s.cancel_flags ≡ false)
    × (leb (suc job.attempts) (granted job) ≡ true)
    × ((worker token : String)
        → (claim worker id token s).1 ≡ claimed (suc job.attempts) (granted job))

requeued-Restarts :
    (id : String) (job row : Job) (s : Store)
    → IsFresh job row
    → Restarts id job (push job.job_type id (unflag id (put_job id row s)))
unfolding claim claim_job
requeued-Restarts id job row s (was, attempts, max) =
    let s0 = unflag id (put_job id row s) in
    let s1 = push job.job_type id s0 in
    (
      elem-push job.job_type id s0,
      elem-remove id s.cancel_flags,
      ground arith,
      λ worker token.
          rw (lookup-put id row s.jobs, claim)
            (ap (λ st. (claim_job worker id token row s1 st).1) was ∙ rw (attempts, max) refl),
    )

retry_job-Restarts :
    (id : String) (job : Job) (s : Store)
    → (retry_job id job s).1 ≡ true
    → Restarts id job (retry_job id job s).0
unfolding retry_job
retry_job-Restarts id job s = elim (Bool-cases (is_retryable job.status)) [
  | inr e ↦ rw e (λ h. cc)
  | inl e ↦ rw e (λ _. requeued-Restarts id job _ s (refl, refl, refl))
]

-- A retry that succeeds, of a job that failed, was cancelled or expired, puts it in its queue with no
-- cancel flag and an attempt left, and the next claim of any worker starts it.
pub retried_job_starts :
    (id : String) (s : Store)
    → (retry id s).1 ≡ true
    → (job : Job) × (lookup id s.jobs ≡ some job) × Restarts id job (retry id s).0
unfolding retry
retried_job_starts id s = elim (Option-cases (lookup id s.jobs)) [
  | inl e ↦ rw (e, retry) (λ h. cc)
  | inr (job, e) ↦ rw (e, retry) (λ h. (job, refl, retry_job-Restarts id job s h))
]

recover_job-Restarts :
    (id : String) (job : Job) (s : Store)
    → (recover_job id job s).1 ≡ true
    → Restarts id job (recover_job id job s).0
unfolding recover_job
recover_job-Restarts id job s = elim (Bool-cases (is_terminal job.status)) [
  | inl e ↦ rw e (λ h. cc)
  | inr e ↦ rw e (λ _. requeued-Restarts id job _ s (refl, refl, refl))
]

-- A job that the reaper takes from a dead worker is in its queue again with no cancel flag and an
-- attempt left, even if it had used up all of them, and the next claim of any worker starts it.
pub recovered_job_starts :
    (id : String) (s : Store)
    → (recover_orphan id s).1 ≡ true
    → (job : Job) × (lookup id s.jobs ≡ some job) × Restarts id job (recover_orphan id s).0
unfolding recover_orphan
recovered_job_starts id s = elim (Option-cases (lookup id s.jobs)) [
  | inl e ↦ rw (e, recover_orphan) (λ h. cc)
  | inr (job, e) ↦ rw (e, recover_orphan) (λ h. (job, refl, recover_job-Restarts id job s h))
]
