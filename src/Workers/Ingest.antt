-- ===== src/Workers/Ingest.antt =====
-- app/workers/tasks.py: `ingest_source`, on top of the run and the retry policy.
use tenderbase_api.Prelude.{
  ◌==◌, if◌then◌else◌, take, first, ℕ, ◌+◌, ◌-◌, max, Bool, true, false, Option, none, some, ◌∷◌,
  ◌++◌,
}
use tenderbase_api.Prelude.Text.{Text}
use tenderbase_api.Enums.{JobStatus}
use tenderbase_api.Source.{Source}
use tenderbase_api.Ingestion.Run.{Services}
use tenderbase_api.Ingestion.Run.Finish.{SourceRun, IngestionJob, Clock, Finished, run_source}
use tenderbase_api.Retry.{
  DeferredJob, Ending, RetrySettings, max_retry_delay, exponential_backoff_seconds, defer_or_fail,
}
use tenderbase_api.Workers.{JobRow, Store, find_job, put_job, put_source}

-- One execution of the task: the services of each source, the clock, the identifier that a new job
-- gets, ARQ's `job_try`, and the error that escapes the pipeline, where one does.
pub record Execution (Item : Type 0) : Type 0 where
  pub services : Source → Services Item
  pub clock : Clock
  pub settings : RetrySettings
  pub draw : ℕ
  pub now : ℕ
  pub new_id : ℕ
  pub job_try : ℕ
  pub crash : Option Text

-- How the task ends: with a result, or with ARQ's control-flow error.
pub data TaskEnd : Type 0 where
  missing : TaskEnd
  returned : SourceRun → TaskEnd
  raised : Ending → TaskEnd

abbrev set_job : JobRow → IngestionJob → JobRow
set_job row j = record row { deferred = record row.deferred { job = j } }

abbrev crashed_row : Text → JobRow → JobRow
crashed_row message row = set_job row (record row.deferred.job {
  status = JobStatus.retrying;
  error_message = some (take 2000 message);
})

-- The rollback forgets the run, the attempt and a job that is new; a stored job is marked.
abbrev pub after_crash : Text → Option JobRow → Store → Store
after_crash message none s = s
after_crash message (some row) s = record s { jobs = put_job (crashed_row message row) s.jobs }

abbrev pub job_after : Option IngestionJob → JobRow → JobRow
job_after none row = row
job_after (some j) row = set_job row j

-- What the run leaves in the session, with the row of its job
abbrev pub with_run : Finished → JobRow → Store → Store
with_run f row s = record {
  sources = put_source f.source s.sources;
  jobs = put_job row s.jobs;
  runs = f.run ∷ s.runs;
  error_rows = f.error_rows ++ s.error_rows;
  db = f.db;
}

abbrev pub deferred_row : Ending × Option DeferredJob → JobRow → JobRow
deferred_row (e, none) row = row
deferred_row (e, some d) row = record row { deferred = d }

abbrev pub is_failed_run : JobStatus → Bool
is_failed_run JobStatus.failed = true
is_failed_run _ = false

abbrev pub stored_job : Option ℕ → Store → Option JobRow
stored_job none s = none
stored_job (some id) s = find_job id s.jobs

module _ {Item : Type 0} (x : Execution Item) where
  abbrev new_job : Source → JobRow
  new_job source = record {
    deferred = record {
      job = record {
        id = x.new_id;
        status = JobStatus.running;
        completed_at = none;
        counters = none;
        error_message = none;
      };
      scheduled_for = none;
    };
    source_id = source.id;
    attempt = 0;
    queue_job_id = none;
  }

  -- The job that the task runs: the stored one, at its next attempt, or a new one.
  abbrev pub started : Source → Option JobRow → JobRow
  started source none = new_job source
  started source (some row) =
      record (set_job row (record row.deferred.job { status = JobStatus.running })) {
        attempt = row.attempt + 1;
      }

  -- `_defer`
  abbrev pub deferral : Ending
  deferral = Ending.retry_after (
      exponential_backoff_seconds (x.job_try - 1) x.settings.worker_retry_backoff max_retry_delay
        true x.draw)

  -- From the end of the run on: `defer_or_fail`, or `_record_queue_attempt`
  abbrev pub after_run : Finished → JobRow → Store → TaskEnd × Store
  after_run f row s =
      let decided = defer_or_fail x.settings x.draw x.now f.run x.job_try (some row.deferred) in
      if is_failed_run f.run.status
      then (raised decided.0, with_run f (deferred_row decided row) s)
      else (returned f.run, with_run f (record row { attempt = max row.attempt x.job_try }) s)

  abbrev pub run_job : Source → JobRow → Store → TaskEnd × Store
  run_job source row s =
      let f = run_source (x.services source) x.clock source (some row.deferred.job) s.db in
      after_run f (job_after f.job row) s

  abbrev pub run_or_crash : Option Text → Source → Option JobRow → Store → TaskEnd × Store
  run_or_crash (some message) source stored s = (raised deferral, after_crash message stored s)
  run_or_crash none source stored s = run_job source (started source stored) s

  abbrev pub ingest_found : Option ℕ → Option Source → Store → TaskEnd × Store
  ingest_found id none s = (missing, s)
  ingest_found id (some source) s = run_or_crash x.crash source (stored_job id s) s

  -- `ingest_source`
  unfoldable pub ingest_source : ℕ → Option ℕ → Store → TaskEnd × Store
  unfolding run_source defer_or_fail exponential_backoff_seconds put_job put_source
  ingest_source source_id id s =
      ingest_found id (first (λ source. source.id == source_id) s.sources) s
