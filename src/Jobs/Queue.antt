-- ===== src/Jobs/Queue.antt =====
-- src/jobs/queue.py: the job records, the lists of ids in Redis, and the operations of the queue on
-- them. Time stamps and the events published are left out.
use crypto_bot_quant.Base.{
  suc, ℕ, Bool, true, false, not, String, Option, none, some, List, [], ◌∷◌, leb, if◌then◌else◌,
  str_eq, select,
}
use crypto_bot_quant.Base.Dict.{Dict, lookup, insert, get_or}
use crypto_bot_quant.Jobs.Routing.{queue_class, queue_key}

pub data JobStatus : Type 0 where
  queued running succeeded failed cancelled blocked expired : JobStatus

pub record Job : Type 0 where
  pub job_type : String
  pub status : JobStatus
  pub requested_by : String
  pub related_gate_id : Option String
  pub progress_current : ℕ
  pub progress_total : ℕ
  pub progress_message : String
  pub artifact_uri : Option String
  pub failure_reason : Option String
  pub next_action_hint : Option String
  pub attempts : ℕ
  pub max_attempts : ℕ
  pub run_token : Option String

-- The table of jobs, the queues by key, the processing lists by worker, and the ids with a cancel
-- flag.
pub record Store : Type 0 where
  pub jobs : Dict Job
  pub queues : Dict (List String)
  pub processing : Dict (List String)
  pub cancel_flags : List String

abbrev pub queue_of : String → Store → List String
queue_of job_type s = get_or (queue_key (queue_class job_type)) [] s.queues

-- `redis.lpush(queue_key(queue_class(job_type)), job_id)`
abbrev pub push : String → String → Store → Store
push job_type id s = record s {
  queues = insert (queue_key (queue_class job_type)) (id ∷ queue_of job_type s) s.queues;
}

abbrev pub put_job : String → Job → Store → Store
put_job id job s = record s { jobs = insert id job s.jobs }

abbrev pub flag : String → Store → Store
flag id s = record s { cancel_flags = id ∷ s.cancel_flags }

-- `redis.delete(_cancel_key(job_id))`
abbrev pub unflag : String → Store → Store
unflag id s = record s { cancel_flags = select (λ x. not (str_eq x id)) s.cancel_flags }

-- `enqueue`, with the new id
unfoldable pub enqueue : String → String → String → Option String → ℕ → Store → Store
enqueue id job_type requested_by related_gate_id max_attempts s = push job_type id (
    put_job id
      record {
        job_type = job_type;
        status = queued;
        requested_by = requested_by;
        related_gate_id = related_gate_id;
        progress_current = 0;
        progress_total = 0;
        progress_message = "";
        artifact_uri = none;
        failure_reason = none;
        next_action_hint = none;
        attempts = 0;
        max_attempts = max_attempts;
        run_token = none;
      }
      s)

-- `cancel`, on the job's row, by its status
unfoldable pub cancel_job : String → Job → Store → JobStatus → Store × Bool
cancel_job id job s succeeded = (s, false)
cancel_job id job s failed = (s, false)
cancel_job id job s cancelled = (s, false)
cancel_job id job s queued = (
  flag id (
      put_job id (record job { status = cancelled; failure_reason = some "cancelled before start" })
        s),
  true,
)
cancel_job id job s other = (flag id s, true)

unfoldable pub cancel : String → Store → Store × Bool
cancel id s = elim (lookup id s.jobs) [
  | none ↦ (s, false)
  | some job ↦ cancel_job id job s job.status
]

-- `if job.max_attempts <= job.attempts: job.max_attempts = job.attempts + 1`
abbrev pub granted : Job → ℕ
granted job = if leb job.max_attempts job.attempts then suc job.attempts else job.max_attempts

abbrev pub is_retryable : JobStatus → Bool
is_retryable failed = true
is_retryable cancelled = true
is_retryable expired = true
is_retryable _ = false

unfoldable pub retry_job : String → Job → Store → Store × Bool
retry_job id job s =
    if is_retryable job.status
    then (
      push job.job_type id (
          unflag id (
            put_job id
              (record job {
                status = queued;
                failure_reason = none;
                progress_current = 0;
                max_attempts = granted job;
              })
              s)),
      true,
    )
    else (s, false)

unfoldable pub retry : String → Store → Store × Bool
retry id s = elim (lookup id s.jobs) [ none ↦ (s, false) | some job ↦ retry_job id job s ]
