-- ===== src/Ingestion/Run/Finish.antt =====
-- app/ingestion/pipeline.py: `_finalise` and the whole of `run_source`; app/db/models/source.py and
-- app/db/models/ingestion.py: the rows of a run, of its job and of its errors.
use tenderbase_api.Prelude.{
  ltb, if◌then◌else◌, length, take, any, ℕ, ◌-◌, ◌/◌, Bool, true, false, not, ◌&&◌, ◌||◌, Option,
  none, some, List, [], ◌∷◌, map,
}
use tenderbase_api.Prelude.Text.{Text}
use tenderbase_api.Enums.{ErrorStage, JobStatus}
use tenderbase_api.Source.{Source}
use tenderbase_api.Source.Health.{update_health}
use tenderbase_api.Ingestion.Persist.Tables.{Db}
use tenderbase_api.Ingestion.Parser.{StageError, as_dict}
use tenderbase_api.Ingestion.Run.{RunStats, Services, Running, run_items}

-- `SourceRun`, with the counters and the sample of errors of its `stats`. No code of the pipeline
-- assigns its `http_status`.
pub record SourceRun : Type 0 where
  pub id : ℕ
  pub source_id : ℕ
  pub job_id : Option ℕ
  pub status : JobStatus
  pub started_at : ℕ
  pub completed_at : ℕ
  pub duration_ms : ℕ
  pub http_status : Option ℕ
  pub counters : RunStats
  pub stats_errors : List StageError
  pub error_count : ℕ
  pub error_message : Option Text

-- What a run writes on `IngestionJob`.
pub record IngestionJob : Type 0 where
  pub id : ℕ
  pub status : JobStatus
  pub completed_at : Option ℕ
  pub counters : Option RunStats
  pub error_message : Option Text

pub record ErrorRow : Type 0 where
  pub job_id : Option ℕ
  pub source_id : ℕ
  pub source_run_id : ℕ
  pub error : StageError

pub record Finished : Type 0 where
  pub run : SourceRun
  pub source : Source
  pub job : Option IngestionJob
  pub error_rows : List ErrorRow
  pub db : Db

abbrev pub is_fatal : StageError → Bool
is_fatal e = elim e.stage [ ErrorStage.discovery ↦ true | ErrorStage.unknown ↦ true | _ ↦ false ]

abbrev pub no_errors : List StageError → Bool
no_errors [] = true
no_errors (e ∷ es) = false

unfoldable pub has_succeeded : RunStats → Bool
has_succeeded st = not (any is_fatal st.errors) && (ltb 0 st.items_found || no_errors st.errors)

abbrev first_message : List StageError → Option Text
first_message [] = none
first_message (e ∷ es) = some (take 2000 e.message)

abbrev pub final_status : Bool → JobStatus
final_status b = if b then JobStatus.completed else JobStatus.failed

abbrev pub job_id_of : Option IngestionJob → Option ℕ
job_id_of none = none
job_id_of (some j) = some j.id

abbrev finish_job : Bool → ℕ → RunStats → IngestionJob → IngestionJob
finish_job succeeded completed st j = record j {
  status = final_status succeeded;
  completed_at = some completed;
  counters = some st;
  error_message =
      if not succeeded && not (no_errors st.errors)
      then first_message st.errors
      else j.error_message;
}

abbrev finish_option : Bool → ℕ → RunStats → Option IngestionJob → Option IngestionJob
finish_option succeeded completed st none = none
finish_option succeeded completed st (some j) = some (finish_job succeeded completed st j)

-- The clock at the start and at the end of a run, the run's identifier and Python's rounding.
pub record Clock : Type 0 where
  pub round : ℕ → ℕ
  pub run_id : ℕ
  pub started : ℕ
  pub completed : ℕ

unfoldable pub finish_run : Clock → Source → Option IngestionJob → RunStats → SourceRun
unfolding has_succeeded
finish_run c source job st = record {
  id = c.run_id;
  source_id = source.id;
  job_id = job_id_of job;
  status = final_status (has_succeeded st);
  started_at = c.started;
  completed_at = c.completed;
  duration_ms = (c.completed - c.started) / 1000;
  http_status = none;
  counters = st;
  stats_errors = map as_dict (take 10 st.errors);
  error_count = length st.errors;
  error_message = first_message st.errors;
}

abbrev pub error_row : Clock → Source → Option IngestionJob → StageError → ErrorRow
error_row c source job e = record {
  job_id = job_id_of job;
  source_id = source.id;
  source_run_id = c.run_id;
  error = e;
}

-- `_finalise`
unfoldable pub finalise : Clock → Source → Option IngestionJob → Running → Finished
unfolding finish_run has_succeeded
finalise c source job s =
    let run = finish_run c source job s.stats in
    record {
      run = run;
      source =
          update_health c.round c.completed (has_succeeded s.stats) run.duration_ms run.http_status
            source;
      job = finish_option (has_succeeded s.stats) c.completed s.stats job;
      error_rows = map (error_row c source job) (take 200 s.stats.errors);
      db = s.db;
    }

-- `run_source`
unfoldable pub run_source :
    {Item : Type 0} → Services Item → Clock → Source → Option IngestionJob → Db → Finished
unfolding finalise
run_source v c source job db = finalise c source job (run_items v db)
