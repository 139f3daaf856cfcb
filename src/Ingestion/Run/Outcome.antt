-- ===== src/Ingestion/Run/Outcome.antt =====
-- app/ingestion/pipeline.py: the status of a finished run, the health of its source, and the bounds on
-- what a run reads and records.
use tenderbase_api.Prelude.{
  Bool-cases, length, take, any, Result-cases, ok, err, ℕ, zero, suc, ◌+◌, ◌≤◌, min, ◌≡◌, refl, ap,
  ◌∙◌, ◌≢◌, ◌⊎◌, inl, inr, true, false, Option, none, some, List, [], ◌∷◌, map, arith,
}
use tenderbase_api.Enums.{JobStatus, HealthStatus}
use tenderbase_api.Source.{Source}
use tenderbase_api.Source.Health.{update_health, health_for_failures}
use tenderbase_api.Ingestion.Record.{Record, Opportunity}
use tenderbase_api.Ingestion.Persist.Tables.{Db, Env}
use tenderbase_api.Ingestion.Persist.Partial.{Break, is_validating}
use tenderbase_api.Ingestion.Parser.{
  Raised, tenderbase, other, Feed, parse_items, parse_end, parse_source, max_items_per_run,
  from_exception, as_dict,
}
use tenderbase_api.Ingestion.Validator.{validate, is_persistable}
use tenderbase_api.Ingestion.Run.{
  RunStats, Services, Running, add_error, persist_item, process_record, process_item, run_items,
  process_valid, broken_off, broken_record, broken_dedup, fail_item, reject, no_stats, parsing,
  run_connector,
}
use tenderbase_api.Ingestion.Run.Finish.{
  IngestionJob, Finished, Clock, finalise, finish_run, has_succeeded, run_source, error_row,
  is_fatal,
}

health_for_failures-suc : (n : ℕ) → health_for_failures (n + 1) ≢ HealthStatus.healthy
unfolding health_for_failures
health_for_failures-suc n = ground arith

-- The two ways in which a run can end, on its row and on its source.
abbrev pub HasCompleted : Clock → Finished → Type 0
HasCompleted c f =
    (f.run.status ≡ JobStatus.completed)
    × (f.source.consecutive_failures ≡ 0)
    × (f.source.health_status ≡ HealthStatus.healthy)
    × (f.source.last_success_at ≡ some c.completed)
    × (any is_fatal f.run.counters.errors ≡ false)

abbrev pub HasFailed : Clock → Source → Finished → Type 0
HasFailed c source f =
    (f.run.status ≡ JobStatus.failed)
    × (f.source.consecutive_failures ≡ source.consecutive_failures + 1)
    × (f.source.health_status ≢ HealthStatus.healthy)
    × (f.source.last_success_at ≡ source.last_success_at)
    × (f.source.last_failure_at ≡ some c.completed)

succeeded-nonfatal : (st : RunStats) → has_succeeded st ≡ true → any is_fatal st.errors ≡ false
unfolding has_succeeded
succeeded-nonfatal st h = ground (arith, h)

-- A run ends in one of two ways. Either it is COMPLETED, none of its errors is of the stage DISCOVERY
-- or UNKNOWN, and its source is HEALTHY with no consecutive failure and succeeded now; or it is FAILED,
-- and its source has one more consecutive failure, is not HEALTHY, failed now, and keeps the moment of
-- its last success.
pub run_source_outcome :
    {Item : Type 0} (v : Services Item) (c : Clock) (source : Source) (job : Option IngestionJob)
    (db : Db)
    → HasCompleted c (run_source v c source job db)
      ⊎ HasFailed c source (run_source v c source job db)
unfolding run_source finalise finish_run update_health
run_source_outcome v c source job db = elim (Bool-cases (has_succeeded (run_items v db).stats)) [
  | inl e ↦
      inl (rw e refl, rw e refl, rw e refl, rw e refl, succeeded-nonfatal (run_items v db).stats e)
  | inr e ↦ inr (
    rw e refl,
    rw e refl,
    rw e (health_for_failures-suc source.consecutive_failures),
    rw e refl,
    rw e refl,
  )
]

-- A run whose connector cannot be built is FAILED with one error, changes no table of tenders, and
-- counts as a failure of its source.
pub run_source_unbuilt :
    {Item : Type 0} (v : Services Item) (c : Clock) (source : Source) (job : Option IngestionJob)
    (db : Db) (x : Raised)
    → v.connector ≡ err x
    → ((run_source v c source job db).run.status ≡ JobStatus.failed)
      × ((run_source v c source job db).db ≡ db)
      × (length (run_source v c source job db).error_rows ≡ 1)
      × ((run_source v c source job db).source.consecutive_failures
          ≡ source.consecutive_failures + 1)
unfolding run_source finalise finish_run update_health run_items has_succeeded add_error
    from_exception no_stats
run_source_unbuilt v c source job db (tenderbase code message retryable) e =
    rw e (refl, refl, refl, refl)
run_source_unbuilt v c source job db (other name message code) e = rw e (refl, refl, refl, refl)

length-map-take {ℓ κ} :
    {A : Type ℓ} {B : Type κ} (f : A → B) (n : ℕ) (xs : List A) → length (map f (take n xs)) ≤ n
length-map-take f zero xs = omega arith
length-map-take f (suc n) [] = omega arith
length-map-take f (suc n) (x ∷ xs) = let rest = length-map-take f n xs in omega (arith, rest)

persist_item-found :
    (env : Env) (r : Record) (o : Option Opportunity) (s : Running)
    → (persist_item env r o s).stats.items_found ≡ s.stats.items_found
unfolding persist_item
persist_item-found env r none s = refl
persist_item-found env r (some o) s = refl

process_record-found :
    {Item : Type 0} (v : Services Item) (r : Record) (s : Running)
    → (process_record v r s).stats.items_found ≡ s.stats.items_found
unfolding process_record
process_record-found v r s = elim (Bool-cases (is_persistable (validate v.checks r).quality)) [
  | inl e ↦ rw e (persist_item-found v.env _ _ _)
  | inr e ↦ rw e refl
]

broken_off-found :
    {Item : Type 0} (v : Services Item) (item : Item) (x : Raised) (r : Record)
    (o : Option Opportunity) (s : Running) (db : Option Db)
    → (broken_off v item x r o s db).stats.items_found ≡ s.stats.items_found
unfolding fail_item add_error
broken_off-found v item x r o s none = persist_item-found v.env r o s
broken_off-found v item x r o s (some db) = refl

broken_record-found :
    {Item : Type 0} (v : Services Item) (item : Item) (b : Break) (x : Raised) (r : Record)
    (s : Running)
    → (broken_record v item b x r s).stats.items_found ≡ s.stats.items_found
unfolding broken_record broken_dedup fail_item reject add_error
broken_record-found v item b x r s = elim (Bool-cases (is_validating b)) [
  | inl e ↦ rw e refl
  | inr e ↦ elim (Bool-cases (is_persistable (validate v.checks r).quality)) [
    | inl k ↦ rw (e, k) (broken_off-found v item x _ _ _ _)
    | inr k ↦ rw (e, k) refl
  ]
]

process_valid-found :
    {Item : Type 0} (v : Services Item) (item : Item) (r : Record) (x : Option (Break × Raised))
    (s : Running)
    → (process_valid v item r x s).stats.items_found ≡ s.stats.items_found
process_valid-found v item r none s = process_record-found v r s
process_valid-found v item r (some (b, x)) s = broken_record-found v item b x r s

process_item-found :
    {Item : Type 0} (v : Services Item) (item : Item) (s : Running)
    → (process_item v item s).stats.items_found ≡ s.stats.items_found + 1
unfolding process_item fail_item add_error
process_item-found v item s = elim (Result-cases (v.normalize item)) [
  | inl (r, e) ↦ rw e (process_valid-found v item r (v.breaks item) _)
  | inr (x, e) ↦ rw e refl
]

parse_items-found :
    {Item : Type 0} (v : Services Item) (left : ℕ) (items : List Item) (ending : Option Raised)
    (s : Running)
    → (parse_items (parsing v) left items ending s).stats.items_found
      ≡ s.stats.items_found + min left (length items)
unfolding parse_items parse_end add_error
parse_items-found v left [] none s = omega arith
parse_items-found v left [] (some x) s = omega arith
parse_items-found v zero (item ∷ rest) ending s = omega arith
parse_items-found v (suc left) (item ∷ rest) ending s =
    parse_items-found v left rest ending (process_item v item s)
    ∙ (rw (process_item-found v item s) (omega arith))

zero_plus : (n : ℕ) → 0 + n ≡ n
zero_plus n = omega arith

run_items-found :
    {Item : Type 0} (v : Services Item) (db : Db) (feed : Feed Item)
    → v.connector ≡ ok feed
    → (run_items v db).stats.items_found ≡ min 5000 (length feed.items)
unfolding run_items parse_source no_stats
run_items-found v db feed e =
    ap (λ res. (run_connector v res (record { db = db; stats = no_stats })).stats.items_found) e
    ∙ parse_items-found v max_items_per_run feed.items feed.ending
        (record { db = db; stats = no_stats })
    ∙ zero_plus (min 5000 (length feed.items))

-- A run of a connector that yields some items finds the first 5000 of them, and all where there are
-- at most as many; it stores at most 200 errors and shows at most 10 of them on its row.
pub run_source_bounds :
    {Item : Type 0} (v : Services Item) (c : Clock) (source : Source) (job : Option IngestionJob)
    (db : Db) (feed : Feed Item)
    → v.connector ≡ ok feed
    → ((run_source v c source job db).run.counters.items_found ≡ min 5000 (length feed.items))
      × (length (run_source v c source job db).error_rows ≤ 200)
      × (length (run_source v c source job db).run.stats_errors ≤ 10)
unfolding run_source finalise finish_run
run_source_bounds v c source job db feed e = (
  run_items-found v db feed e,
  length-map-take (error_row c source job) 200 (run_items v db).stats.errors,
  length-map-take as_dict 10 (run_items v db).stats.errors,
)
