-- ===== src/Ingestion/Run.antt =====
-- app/ingestion/pipeline.py: `run_source`, `_process_item` and `_finalise`. The normalizer with the
-- offloading of raw payloads, the registry's `build_connector`, the clock and the text of a rejection
-- are parameters, and so is where the processing of an item raises after it is normalized (`breaks`). An
-- exception after which the session cannot be used, as a flush that fails, ends the run with an exception:
-- the task's crash (Workers).
pub mod Finish
pub mod Counts
pub mod Outcome
use tenderbase_api.Prelude.{
  ◌==◌, if◌then◌else◌, length, first, Result, ok, err, ℕ, ◌+◌, Bool, false, not, Option, none, some,
  List, [], ◌∷◌, ◌++◌,
}
use tenderbase_api.Prelude.Text.{Text, codes}
use tenderbase_api.Enums.{ErrorStage, DataQuality, JobStatus, DuplicateDecision}
use tenderbase_api.Source.{Source}
use tenderbase_api.Source.Health.{update_health}
use tenderbase_api.Ingestion.Record.{Record, Field, Layer, Opportunity}
use tenderbase_api.Ingestion.Dedup.{DedupResult, is_duplicate, find_duplicate}
use tenderbase_api.Ingestion.Dedup.Layers.{Setting}
use tenderbase_api.Ingestion.Persist.{create_opportunity, update_existing}
use tenderbase_api.Ingestion.Persist.Tables.{Db, Env}
use tenderbase_api.Ingestion.Persist.Partial.{Break, is_validating, interrupted}
use tenderbase_api.Ingestion.Parser.{
  Raised, tenderbase, other, StageError, from_exception, as_dict, Feed, Parsing, parse_source,
  max_items_per_run,
}
use tenderbase_api.Ingestion.Validator.{
  Checks, Issue, ValidationResult, validate, is_persistable, text_of,
}

pub record RunStats : Type 0 where
  pub items_found : ℕ
  pub items_created : ℕ
  pub items_updated : ℕ
  pub items_skipped : ℕ
  pub items_failed : ℕ
  pub documents_found : ℕ
  pub uncertain_duplicates : ℕ
  pub errors : List StageError

pub no_stats : RunStats
no_stats = record {
  items_found = 0;
  items_created = 0;
  items_updated = 0;
  items_skipped = 0;
  items_failed = 0;
  documents_found = 0;
  uncertain_duplicates = 0;
  errors = [];
}

pub record Services (Item : Type 0) : Type 0 where
  pub normalize : Item → Result Raised Record
  pub breaks : Item → Option (Break × Raised)
  pub url : Item → Text
  pub connector : Result Raised (Feed Item)
  pub base_url : Text
  pub limit_message : ℕ → Text
  pub rejection : List Issue → Text
  pub setting : Setting
  pub checks : Checks
  pub env : Env

-- The tables and the counters that the items of a run change.
pub record Running : Type 0 where
  pub db : Db
  pub stats : RunStats

unfoldable pub add_error : StageError → Running → Running
add_error e s = record s { stats = record s.stats { errors = s.stats.errors ++ (e ∷ []) } }

-- A record that validation refuses.
unfoldable pub reject : Text → Record → Running → Running
unfolding add_error
reject message r s =
    add_error
      (record {
        stage = ErrorStage.validate;
        code = codes "RECORD_INVALID";
        message = message;
        url = some (text_of (r.fields Field.source_url));
        retryable = false;
      })
      (record s { stats = record s.stats { items_skipped = s.stats.items_skipped + 1 } })

abbrev pub review_quality : DataQuality → DataQuality
review_quality DataQuality.valid = DataQuality.needs_review
review_quality q = q

-- The record and the counters after the search for duplicates.
unfoldable pub mark_uncertain : DedupResult → Record → Record
mark_uncertain d r = elim d.decision [
  | DuplicateDecision.uncertain ↦ record r {
    data_quality = review_quality r.data_quality;
    duplicate_review = some (d.existing_id, d.layer);
  }
  | _ ↦ r
]

abbrev pub uncertain_count : DuplicateDecision → ℕ
uncertain_count DuplicateDecision.uncertain = 1
uncertain_count _ = 0

abbrev pub existing_row : Option ℕ → Db → Option Opportunity
existing_row none db = none
existing_row (some id) db = first (λ o. o.id == id) db.opportunities

unfoldable pub duplicate_row : DedupResult → Db → Option Opportunity
duplicate_row d db = if is_duplicate d.decision then existing_row d.existing_id db else none

abbrev one_if : Bool → ℕ
one_if b = if b then 1 else 0

-- `VERSION` and `PERSIST`: the row that is updated, or a new one.
unfoldable pub persist_item : Env → Record → Option Opportunity → Running → Running
persist_item env r (some o) s =
    let (updated, db) = update_existing env r o s.db in
    record {
      db = db;
      stats = record s.stats {
        items_updated = s.stats.items_updated + one_if updated;
        items_skipped = s.stats.items_skipped + one_if (not updated);
        documents_found = s.stats.documents_found + length r.documents;
      };
    }
persist_item env r none s = record {
  db = create_opportunity env r s.db;
  stats = record s.stats {
    items_created = s.stats.items_created + 1;
    documents_found = s.stats.documents_found + length r.documents;
  };
}

unfoldable pub dedup_item : Setting → Env → Record → Running → Running
unfolding persist_item mark_uncertain duplicate_row
dedup_item setting env r s =
    let d = find_duplicate setting r s.db.opportunities in
    persist_item env (mark_uncertain d r) (duplicate_row d s.db) (record s {
      stats = record s.stats {
        uncertain_duplicates = s.stats.uncertain_duplicates + uncertain_count d.decision;
      };
    })

module _ {Item : Type 0} (v : Services Item) where
  -- What follows normalization in `_process_item`
  unfoldable pub process_record : Record → Running → Running
  unfolding reject dedup_item
  process_record r s =
      let checked = validate v.checks r in
      if is_persistable checked.quality
      then dedup_item v.setting v.env
          (record r { data_quality = checked.quality; duplicate_review = none }) s
      else reject (v.rejection checked.issues) r s

  unfoldable pub fail_item : Item → Raised → Running → Running
  unfolding add_error from_exception
  fail_item item e s =
      add_error (from_exception e ErrorStage.persist (some (v.url item)))
        (record s { stats = record s.stats { items_failed = s.stats.items_failed + 1 } })

  -- The item at the break, where it is reached
  abbrev pub broken_off :
      Item → Raised → Record → Option Opportunity → Running → Option Db → Running
  broken_off item e r o s none = persist_item v.env r o s
  broken_off item e r o s (some db) = fail_item item e (record s { db = db })

  -- `dedup_item` and what follows it, with the break
  unfoldable pub broken_dedup : Item → Break → Raised → Record → Running → Running
  unfolding persist_item mark_uncertain duplicate_row fail_item interrupted
  broken_dedup item b e r s =
      let d = find_duplicate v.setting r s.db.opportunities in
      let marked = mark_uncertain d r in
      let o = duplicate_row d s.db in
      broken_off item e marked o
        (record s {
          stats = record s.stats {
            uncertain_duplicates = s.stats.uncertain_duplicates + uncertain_count d.decision;
          };
        })
        (interrupted b v.env marked o s.db)

  -- `process_record`, with the break
  unfoldable pub broken_record : Item → Break → Raised → Record → Running → Running
  unfolding reject fail_item broken_dedup
  broken_record item b e r s =
      let checked = validate v.checks r in
      if is_validating b
      then fail_item item e s
      else if is_persistable checked.quality
      then broken_dedup item b e
          (record r { data_quality = checked.quality; duplicate_review = none }) s
      else reject (v.rejection checked.issues) r s

  abbrev pub process_valid : Item → Record → Option (Break × Raised) → Running → Running
  process_valid item r none s = process_record r s
  process_valid item r (some (b, e)) s = broken_record item b e r s

  abbrev pub process_normalized : Item → Result Raised Record → Running → Running
  process_normalized item (ok r) s = process_valid item r (v.breaks item) s
  process_normalized item (err e) s = fail_item item e s

  -- One turn of the loop in `run_source`, with `_process_item` and the handler of its exceptions
  unfoldable pub process_item : Item → Running → Running
  unfolding process_record fail_item broken_record
  process_item item s =
      process_normalized item (v.normalize item)
        (record s { stats = record s.stats { items_found = s.stats.items_found + 1 } })

  abbrev pub parsing : Parsing Item Running
  parsing = record {
    base_url = v.base_url;
    max_items = max_items_per_run;
    limit_message = v.limit_message;
    on_item = process_item;
    on_error = add_error;
  }

  abbrev pub build_stage : Raised → ErrorStage
  build_stage (tenderbase code message retryable) = ErrorStage.discovery
  build_stage (other name message code) = ErrorStage.unknown

  abbrev pub run_connector : Result Raised (Feed Item) → Running → Running
  run_connector (ok feed) s = parse_source parsing feed s
  run_connector (err e) s = add_error (from_exception e (build_stage e) none) s

  -- `run_source` up to `_finalise`
  unfoldable pub run_items : Db → Running
  unfolding no_stats process_item parse_source add_error from_exception
  run_items db = run_connector v.connector (record { db = db; stats = no_stats })
