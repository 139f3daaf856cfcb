-- ===== src/Witnesses/Runs.antt =====
-- Runs of a source whose connector yields two tenders, or cannot be built.
use tenderbase_api.Prelude.{
  if◌then◌else◌, length, ok, err, ◌*◌, ◌≤◌, max, ◌≡◌, refl, sym, ap, ◌⊎◌, Bool, false, Option, none,
  some, [], ◌∷◌, map, arith,
}
use tenderbase_api.Prelude.Text.{codes}
use tenderbase_api.Ingestion.Persist.History.{IsVersioned}
use tenderbase_api.Ingestion.Parser.{Raised, tenderbase, other}
use tenderbase_api.Ingestion.Run.{no_stats, Services}
use tenderbase_api.Ingestion.Run.Finish.{SourceRun, Finished, run_source, finish_run}
use tenderbase_api.Ingestion.Persist.Partial.{Break, documents, version, partial_update, splits}
use tenderbase_api.Ingestion.Persist.{row_diff, updated_row, replace_row}
use tenderbase_api.Ingestion.Persist.Tables.{upsert_contact, find_contact, add_contact}
use tenderbase_api.Ingestion.Record.{Record}
use tenderbase_api.Ingestion.Run.Counts.{
  IsUnsplit, IsBalanced, run_source-IsBalanced, run_source-IsVersioned,
}
use tenderbase_api.Ingestion.Run.Outcome.{
  HasCompleted, HasFailed, run_source_outcome, run_source_bounds,
}
use tenderbase_api.Retry.{RetrySettings, million, is_transient, tries}
use tenderbase_api.Retry.Bounds.{tries_exact}
use tenderbase_api.Witnesses.Fixtures.{
  environment, tender, row, active_source, one_row, one_row-IsVersioned, services, two_items, clock,
}

abbrev finished : Finished
finished = run_source (services (ok two_items)) clock active_source none one_row

abbrev lost : Raised
lost = other (codes "OSError") (codes "no space") (codes "OS_ERROR")

-- Services whose items break off before their documents are stored
abbrev fragile : Services Record
fragile = record (services (ok two_items)) { breaks = λ r. some (documents, lost) }

fragile-IsUnsplit : IsUnsplit fragile
fragile-IsUnsplit item b x e = ap (λ (o : Option (Break × Raised)). split_by o) (sym e)
  where
    split_by : Option (Break × Raised) → Bool
    split_by none = false
    split_by (some (c, y)) = splits c

run_source-IsVersioned_example :
    IsVersioned (run_source fragile clock active_source none one_row).db
run_source-IsVersioned_example =
    run_source-IsVersioned fragile clock active_source none one_row fragile-IsUnsplit
      one_row-IsVersioned

-- A break between a row and its version leaves the row's version number without a version.
split_versions :
    (partial_update version environment tender
      (row_diff environment tender row one_row)
      row
      one_row).versions
    ≡ one_row.versions
unfolding partial_update upsert_contact find_contact add_contact
split_versions = refl

split_row :
    map
      (λ o. o.version)
      (partial_update version environment tender
        (row_diff environment tender row one_row)
        row
        one_row).opportunities
    ≡ 2 ∷ []
unfolding partial_update upsert_contact find_contact add_contact replace_row updated_row
split_row = refl

run_source-IsBalanced_example : IsBalanced finished.run.counters
run_source-IsBalanced_example =
    run_source-IsBalanced (services (ok two_items)) clock active_source none one_row

run_source_outcome_example : HasCompleted clock finished ⊎ HasFailed clock active_source finished
run_source_outcome_example =
    run_source_outcome (services (ok two_items)) clock active_source none one_row

run_source_bounds_example :
    (finished.run.counters.items_found ≡ 2)
    × (length finished.error_rows ≤ 200)
    × (length finished.run.stats_errors ≤ 10)
run_source_bounds_example =
    run_source_bounds (services (ok two_items)) clock active_source none one_row two_items refl

abbrev unregistered : Raised
unregistered = tenderbase (codes "CONNECTOR_NOT_REGISTERED") (codes "no connector") false

abbrev unbuilt : Finished
unbuilt = run_source (services (err unregistered)) clock active_source none one_row

abbrev settings : RetrySettings
settings = record { worker_max_tries = 3; worker_retry_backoff = 5 * million }

-- A run without items.
abbrev empty_run : SourceRun
empty_run = finish_run clock active_source none no_stats

tries_exact_example :
    tries 5 settings 500000 empty_run 1
    ≡ (if is_transient empty_run.stats_errors then max 1 3 else 1)
tries_exact_example = tries_exact 5 settings 500000 empty_run (omega arith)
