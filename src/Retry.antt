-- ===== src/Retry.antt =====
-- app/utils/backoff.py and app/workers/retry.py: whether a failed run is tried again, and when. Seconds
-- are microseconds, a draw of the uniform source is in millionths, and a delay is in millionths of a
-- microsecond, so that no product is rounded. The numbers cannot be negative, where the guards of
-- `exponential_backoff_seconds` raise.
pub mod Bounds
use tenderbase_api.Prelude.{
  leb, if◌then◌else◌, take, any, ℕ, zero, suc, ◌+◌, ◌-◌, ◌*◌, ◌^◌, min, max, Bool, true, false, not,
  ◌||◌, Option, none, some, List, [], ◌∷◌,
}
use tenderbase_api.Prelude.Text.{Text, codes}
use tenderbase_api.Enums.{JobStatus}
use tenderbase_api.Ingestion.Parser.{StageError}
use tenderbase_api.Ingestion.Run.Finish.{SourceRun, IngestionJob}

abbrev pub million : ℕ
million = 1000000

-- `exponential_backoff_seconds`
unfoldable pub exponential_backoff_seconds : ℕ → ℕ → ℕ → Bool → ℕ → ℕ
exponential_backoff_seconds attempt base_seconds max_seconds jitter draw =
    let capped = min max_seconds (base_seconds * 2 ^ attempt) in
    if not jitter || leb capped 0 then capped * million else capped * min million draw

abbrev pub max_retry_delay : ℕ
max_retry_delay = 900 * million

pub data Reason : Type 0 where
  permanent_failure retries_exhausted transient_failure : Reason

pub record RetryDecision : Type 0 where
  pub retry : Bool
  pub delay : ℕ
  pub attempts_used : ℕ
  pub attempts_allowed : ℕ
  pub reason : Reason

pub record RetrySettings : Type 0 where
  pub worker_max_tries : ℕ
  pub worker_retry_backoff : ℕ

abbrev is_retryable : StageError → Bool
is_retryable e = e.retryable

abbrev pub is_transient : List StageError → Bool
is_transient [] = true
is_transient (e ∷ es) = any is_retryable (e ∷ es)

abbrev give_up : ℕ → ℕ → Reason → RetryDecision
give_up used allowed reason = record {
  retry = false;
  delay = 0;
  attempts_used = used;
  attempts_allowed = allowed;
  reason = reason;
}

-- `decide_retry`
unfoldable pub decide_retry : RetrySettings → ℕ → SourceRun → ℕ → RetryDecision
unfolding exponential_backoff_seconds
decide_retry settings draw run job_try =
    let allowed = max 1 settings.worker_max_tries in
    let used = max 1 job_try in
    if not (is_transient run.stats_errors)
    then give_up used allowed permanent_failure
    else if leb allowed used
    then give_up used allowed retries_exhausted
    else record {
      retry = true;
      delay =
          exponential_backoff_seconds (used - 1) settings.worker_retry_backoff max_retry_delay true
            draw;
      attempts_used = used;
      attempts_allowed = allowed;
      reason = transient_failure;
    }

-- The exception that `defer_or_fail` ends with.
pub data Ending : Type 0 where
  retry_after : ℕ → Ending
  job_failed : Reason → Ending

abbrev reason_text : Reason → Text
reason_text permanent_failure = codes "permanent_failure"
reason_text retries_exhausted = codes "retries_exhausted"
reason_text transient_failure = codes "transient_failure"

abbrev text_or : Text → Text → Text
text_or [] other = other
text_or (c ∷ s) other = c ∷ s

abbrev run_message : Option Text → Text
run_message none = []
run_message (some m) = m

abbrev first_error_message : List StageError → Option Text → Text
first_error_message [] m = run_message m
first_error_message (e ∷ es) m = text_or e.message (run_message m)

-- `IngestionJob` with the moment of its next try, in the delay's unit.
pub record DeferredJob : Type 0 where
  pub job : IngestionJob
  pub scheduled_for : Option ℕ

abbrev record_decision : ℕ → SourceRun → RetryDecision → DeferredJob → DeferredJob
record_decision now run d j = record {
  job = record j.job {
    status = if d.retry then JobStatus.retrying else JobStatus.failed;
    completed_at = if d.retry then none else some now;
    error_message = some (
        take 2000 (
          text_or (first_error_message run.stats_errors run.error_message) (reason_text d.reason)));
  };
  scheduled_for = if d.retry then some (now * million + d.delay) else j.scheduled_for;
}

abbrev record_option : ℕ → SourceRun → RetryDecision → Option DeferredJob → Option DeferredJob
record_option now run d none = none
record_option now run d (some j) = some (record_decision now run d j)

abbrev ending_of : RetryDecision → Ending
ending_of d = if d.retry then retry_after d.delay else job_failed d.reason

-- `defer_or_fail`
unfoldable pub defer_or_fail :
    RetrySettings → ℕ → ℕ → SourceRun → ℕ → Option DeferredJob → Ending × Option DeferredJob
unfolding decide_retry
defer_or_fail settings draw now run job_try job =
    let d = decide_retry settings draw run job_try in (ending_of d, record_option now run d job)

-- The tries of one job whose runs all end with this row: ARQ counts `job_try` up at each of them.
unfoldable pub tries : ℕ → RetrySettings → ℕ → SourceRun → ℕ → ℕ
unfolding decide_retry
tries zero settings draw run job_try = 0
tries (suc fuel) settings draw run job_try =
    let later = tries fuel settings draw run (job_try + 1) in
    if (decide_retry settings draw run job_try).retry then suc later else 1
