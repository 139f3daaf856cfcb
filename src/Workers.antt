-- ===== src/Workers.antt =====
-- app/workers/tasks.py: `ingest_source` and `schedule_due_sources`, over the committed rows. A session is
-- committed or rolled back as a whole; what the queue and the pipeline's infrastructure do is a parameter.
pub mod Ingest
pub mod Schedule
pub mod Recorded
pub mod Accounts
use tenderbase_api.Prelude.{◌==◌, if◌then◌else◌, first, ℕ, Option, List, [], ◌∷◌}
use tenderbase_api.Prelude.Text.{Text}
use tenderbase_api.Source.{Source}
use tenderbase_api.Ingestion.Run.Finish.{SourceRun, ErrorRow}
use tenderbase_api.Ingestion.Persist.Tables.{Db}
use tenderbase_api.Retry.{DeferredJob}

-- `IngestionJob` with what the tasks and the queue write on it.
pub record JobRow : Type 0 where
  pub deferred : DeferredJob
  pub source_id : ℕ
  pub attempt : ℕ
  pub queue_job_id : Option Text

abbrev pub job_id : JobRow → ℕ
job_id row = row.deferred.job.id

-- The committed rows.
pub record Store : Type 0 where
  pub sources : List Source
  pub jobs : List JobRow
  pub runs : List SourceRun
  pub error_rows : List ErrorRow
  pub db : Db

abbrev pub find_job : ℕ → List JobRow → Option JobRow
find_job id jobs = first (λ row. job_id row == id) jobs

-- A row is written in its place, or added.
unfoldable pub put_job : JobRow → List JobRow → List JobRow
put_job row [] = row ∷ []
put_job row (r ∷ rows) =
    let rest = put_job row rows in if job_id r == job_id row then row ∷ rows else r ∷ rest

unfoldable pub put_source : Source → List Source → List Source
put_source s [] = []
put_source s (x ∷ xs) = let rest = put_source s xs in if x.id == s.id then s ∷ rest else x ∷ rest
