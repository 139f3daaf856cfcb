-- ===== src/Workers/Schedule.antt =====
-- app/workers/tasks.py: `schedule_due_sources`.
use tenderbase_api.Retry.{million}
use tenderbase_api.Prelude.{
  if◌then◌else◌, take, Result, ok, err, ℕ, ◌+◌, ◌*◌, Bool, true, false, Option, none, some, List,
  [], ◌∷◌, ◌++◌,
}
use tenderbase_api.Prelude.Text.{Text}
use tenderbase_api.Enums.{JobStatus}
use tenderbase_api.Source.{Source}
use tenderbase_api.Source.Due.{find_due_sources}
use tenderbase_api.Workers.{JobRow, Store}

-- `JobQueue.enqueue`: the queue's identifier, none for a duplicate, or the text of its exception
abbrev pub Enqueue : Type 0
Enqueue = Source → ℕ → Result Text (Option Text)

abbrev queued_job : ℕ → ℕ → Source → JobRow
queued_job now id source = record {
  deferred = record {
    job = record {
      id = id;
      status = JobStatus.queued;
      completed_at = none;
      counters = none;
      error_message = none;
    };
    scheduled_for = some (now * million);
  };
  source_id = source.id;
  attempt = 0;
  queue_job_id = none;
}

abbrev enqueued : JobRow → Result Text (Option Text) → JobRow
enqueued row (ok id) = record row { queue_job_id = id }
enqueued row (err message) = record row {
  deferred = record row.deferred {
    job = record row.deferred.job {
      status = JobStatus.failed;
      error_message = some (take 2000 message);
    };
  };
}

abbrev is_enqueued : Result Text (Option Text) → Bool
is_enqueued (ok id) = true
is_enqueued (err message) = false

-- The loop over the due sources: the sources that were queued, and the rows that were added. `id` is
-- the identifier that the next row gets.
unfoldable pub queue_each : Enqueue → ℕ → ℕ → List Source → List ℕ × List JobRow
queue_each enqueue now id [] = ([], [])
queue_each enqueue now id (source ∷ sources) =
    let answer = enqueue source id in
    let (queued, rows) = queue_each enqueue now (id + 1) sources in
    (
      if is_enqueued answer then source.id ∷ queued else queued,
      enqueued (queued_job now id source) answer ∷ rows,
    )

-- `schedule_due_sources`
unfoldable pub schedule_due_sources : Enqueue → ℕ → ℕ → ℕ → Store → List ℕ × Store
unfolding find_due_sources queue_each
schedule_due_sources enqueue now id limit s =
    let (queued, rows) =
      queue_each enqueue now id (find_due_sources now limit false true s.sources) in
    (queued, record s { jobs = s.jobs ++ rows })
