-- ===== src/Witnesses/Tasks.antt =====
-- The worker's tasks for one stored source.
use tenderbase_api.Prelude.{ok, err, ◌*◌, refl, none, [], ◌∷◌}
use tenderbase_api.Prelude.Text.{codes}
use tenderbase_api.Retry.{million}
use tenderbase_api.Workers.{Store}
use tenderbase_api.Workers.Ingest.{Execution, ingest_source}
use tenderbase_api.Workers.Recorded.{HasRow, ingest_source-HasRow}
use tenderbase_api.Workers.Schedule.{Enqueue}
use tenderbase_api.Workers.Accounts.{Accounts}
use tenderbase_api.Ingestion.Record.{Record}
use tenderbase_api.Witnesses.Fixtures.{active_source, one_row, services, two_items, clock}

abbrev store : Store
store = record { sources = active_source ∷ []; jobs = []; runs = []; error_rows = []; db = one_row }

abbrev execution : Execution Record
execution = record {
  services = λ source. services (ok two_items);
  clock = clock;
  settings = record { worker_max_tries = 3; worker_retry_backoff = 5 * million };
  draw = 0;
  now = 9000;
  new_id = 1;
  job_try = 1;
  crash = none;
}

ingest_source-HasRow_example : HasRow 1 1 (ingest_source execution 7 none store)
ingest_source-HasRow_example = ingest_source-HasRow execution 7 none store active_source refl refl

abbrev enqueue : Enqueue
enqueue source id = err (codes "no queue")
