-- ===== src/Ingestion/Run/Counts.antt =====
-- app/ingestion/pipeline.py: every item of a run is counted once, and the tables stay well-formed.
use mathlib.Core.List.{Memᴰ}
use tenderbase_api.Prelude.{
  ◌==◌, if◌then◌else◌, Bool-cases, Result, Result-cases, ok, err, ℕ, zero, suc, ◌+◌, ◌≡◌, refl, inl,
  inr, Bool, true, false, not, Option, none, some, List, [], ◌∷◌, arith,
}
use tenderbase_api.Source.{Source}
use tenderbase_api.Ingestion.Record.{Record, Opportunity}
use tenderbase_api.Ingestion.Dedup.{find_duplicate, DedupResult, is_duplicate}
use tenderbase_api.Ingestion.Dedup.Lists.{first_sound}
use tenderbase_api.Ingestion.Persist.{update_existing}
use tenderbase_api.Ingestion.Persist.Tables.{Db, Env}
use tenderbase_api.Ingestion.Persist.Partial.{Break, splits, is_validating}
use tenderbase_api.Ingestion.Persist.Unbroken.{interrupted-IsVersioned}
use tenderbase_api.Ingestion.Persist.History.{
  IsVersioned, create_opportunity-IsVersioned, update_existing-IsVersioned,
}
use tenderbase_api.Ingestion.Parser.{
  Raised, StageError, Feed, parse_items, parse_end, parse_source, max_items_per_run, Parsing,
}
use tenderbase_api.Ingestion.Validator.{validate, is_persistable}
use tenderbase_api.Ingestion.Run.{
  RunStats, Services, Running, add_error, persist_item, duplicate_row, existing_row, process_record,
  process_item, run_items, process_valid, broken_off, broken_record, broken_dedup, fail_item,
  reject, no_stats, parsing, run_connector, mark_uncertain,
}
use tenderbase_api.Ingestion.Run.Finish.{IngestionJob, Clock, finalise, finish_run, run_source}

-- Each found item is in exactly one of the four counters, and the tables hold the invariant.
abbrev pub IsBalanced : RunStats → Type 0
IsBalanced st =
    st.items_found ≡ st.items_created + st.items_updated + st.items_skipped + st.items_failed

-- The counters without one found item that is still to be counted.
abbrev IsPending : RunStats → Type 0
IsPending st =
    st.items_found ≡ st.items_created + st.items_updated + st.items_skipped + st.items_failed + 1

one_of :
    (b : Bool) (c u s f n : ℕ)
    → n ≡ c + u + s + f + 1
    → n ≡ c + (u + (if b then 1 else 0)) + (s + (if not b then 1 else 0)) + f
one_of true c u s f n h = omega (arith, h)
one_of false c u s f n h = omega (arith, h)

persist_item-IsBalanced :
    (env : Env) (r : Record) (o : Option Opportunity) (s : Running)
    → IsPending s.stats
    → IsBalanced (persist_item env r o s).stats
unfolding persist_item
persist_item-IsBalanced env r none s h = omega (arith, h)
persist_item-IsBalanced env r (some o) s h = one_of (update_existing env r o s.db).0 _ _ _ _ _ h

if_holds {ℓ κ} :
    {A : Type ℓ} (P : A → Type κ) (b : Bool) (x y : A) → P x → P y → P (if b then x else y)
if_holds P true x y h k = h
if_holds P false x y h k = k

process_record-IsBalanced :
    {Item : Type 0} (v : Services Item) (r : Record) (s : Running)
    → IsPending s.stats
    → IsBalanced (process_record v r s).stats
unfolding process_record
process_record-IsBalanced v r s h =
    if_holds {A = Running} (λ z. IsBalanced z.stats) (is_persistable (validate v.checks r).quality)
      _ _ (persist_item-IsBalanced v.env _ _ _ h) (omega (arith, h))

fail_item-IsBalanced :
    {Item : Type 0} (v : Services Item) (item : Item) (x : Raised) (s : Running)
    → IsPending s.stats
    → IsBalanced (fail_item v item x s).stats
unfolding fail_item add_error
fail_item-IsBalanced v item x s h = omega (arith, h)

broken_off-IsBalanced :
    {Item : Type 0} (v : Services Item) (item : Item) (x : Raised) (r : Record)
    (o : Option Opportunity) (s : Running) (db : Option Db)
    → IsPending s.stats
    → IsBalanced (broken_off v item x r o s db).stats
broken_off-IsBalanced v item x r o s none h = persist_item-IsBalanced v.env r o s h
broken_off-IsBalanced v item x r o s (some db) h = fail_item-IsBalanced v item x _ h

broken_record-IsBalanced :
    {Item : Type 0} (v : Services Item) (item : Item) (b : Break) (x : Raised) (r : Record)
    (s : Running)
    → IsPending s.stats
    → IsBalanced (broken_record v item b x r s).stats
unfolding broken_record broken_dedup reject
broken_record-IsBalanced v item b x r s h =
    if_holds {A = Running} (λ z. IsBalanced z.stats) (is_validating b) _ _
      (fail_item-IsBalanced v item x s h)
      (if_holds {A = Running} (λ z. IsBalanced z.stats)
        (is_persistable (validate v.checks r).quality) _ _
        (broken_off-IsBalanced v item x _ _ _ _ h) (omega (arith, h)))

process_valid-IsBalanced :
    {Item : Type 0} (v : Services Item) (item : Item) (r : Record) (x : Option (Break × Raised))
    (s : Running)
    → IsPending s.stats
    → IsBalanced (process_valid v item r x s).stats
process_valid-IsBalanced v item r none s h = process_record-IsBalanced v r s h
process_valid-IsBalanced v item r (some (b, x)) s h = broken_record-IsBalanced v item b x r s h

process_item-IsBalanced :
    {Item : Type 0} (v : Services Item) (item : Item) (s : Running)
    → IsBalanced s.stats
    → IsBalanced (process_item v item s).stats
unfolding process_item fail_item add_error
process_item-IsBalanced v item s h = elim (Result-cases (v.normalize item)) [
  | inl (r, e) ↦ rw e (process_valid-IsBalanced v item r (v.breaks item) _ (omega (arith, h)))
  | inr (x, e) ↦ rw e (omega (arith, h))
]

existing_row-Mem :
    (id : Option ℕ) (db : Db) (o : Opportunity)
    → existing_row id db ≡ some o
    → Memᴰ o db.opportunities
existing_row-Mem none db o h = absurd (ground arith)
existing_row-Mem (some id) db o h = (first_sound (λ x. x.id == id) db.opportunities o h).0

duplicate_row-Mem :
    (d : DedupResult) (db : Db) (o : Opportunity)
    → duplicate_row d db ≡ some o
    → Memᴰ o db.opportunities
unfolding duplicate_row
duplicate_row-Mem d db o h = elim (Bool-cases (is_duplicate d.decision)) [
  | inl e ↦ existing_row-Mem d.existing_id db o (rw e at h)
  | inr e ↦ let n : none ≡ some o = rw e at h in absurd (ground arith)
]

persist_item-IsVersioned :
    (env : Env) (r : Record) (o : Option Opportunity) (s : Running)
    → ((x : Opportunity) → o ≡ some x → Memᴰ x s.db.opportunities)
    → IsVersioned s.db
    → IsVersioned (persist_item env r o s).db
unfolding persist_item
persist_item-IsVersioned env r none s m h = create_opportunity-IsVersioned env r s.db h
persist_item-IsVersioned env r (some o) s m h =
    update_existing-IsVersioned env r o s.db (m o refl) h

process_record-IsVersioned :
    {Item : Type 0} (v : Services Item) (r : Record) (s : Running)
    → IsVersioned s.db
    → IsVersioned (process_record v r s).db
unfolding process_record
process_record-IsVersioned v r s h =
    let checked = validate v.checks r in
    let r' : Record = record r { data_quality = checked.quality; duplicate_review = none } in
    if_holds {A = Running} (λ z. IsVersioned z.db) (is_persistable checked.quality) _ _
      (persist_item-IsVersioned v.env _ _ _
        (duplicate_row-Mem (find_duplicate v.setting r' s.db.opportunities) s.db) h)
      h

broken_off-IsVersioned :
    {Item : Type 0} (v : Services Item) (item : Item) (x : Raised) (r : Record)
    (o : Option Opportunity) (s : Running) (db : Option Db)
    → ((y : Opportunity) → o ≡ some y → Memᴰ y s.db.opportunities)
    → ((after : Db) → db ≡ some after → IsVersioned after)
    → IsVersioned s.db
    → IsVersioned (broken_off v item x r o s db).db
unfolding fail_item
broken_off-IsVersioned v item x r o s none m a h = persist_item-IsVersioned v.env r o s m h
broken_off-IsVersioned v item x r o s (some db) m a h = a db refl

broken_record-IsVersioned :
    {Item : Type 0} (v : Services Item) (item : Item) (b : Break) (x : Raised) (r : Record)
    (s : Running)
    → splits b ≡ false
    → IsVersioned s.db
    → IsVersioned (broken_record v item b x r s).db
unfolding broken_record broken_dedup fail_item reject
broken_record-IsVersioned v item b x r s w h =
    let checked = validate v.checks r in
    let r' : Record = record r { data_quality = checked.quality; duplicate_review = none } in
    let d = find_duplicate v.setting r' s.db.opportunities in
    let found = duplicate_row-Mem d s.db in
    if_holds {A = Running} (λ z. IsVersioned z.db) (is_validating b) _ _ h
      (if_holds {A = Running} (λ z. IsVersioned z.db) (is_persistable checked.quality) _ _
        (broken_off-IsVersioned v item x (mark_uncertain d r') (duplicate_row d s.db) _ _ found
          (λ after e.
            interrupted-IsVersioned b v.env (mark_uncertain d r') (duplicate_row d s.db) s.db after
              w found h e)
          h)
        h)

-- No item of the run is broken off between the write of a row and of its version.
abbrev pub IsUnsplit : {Item : Type 0} → Services Item → Type 0
IsUnsplit {Item = Item} v =
    (item : Item) (b : Break) (x : Raised) → v.breaks item ≡ some (b, x) → splits b ≡ false

process_valid-IsVersioned :
    {Item : Type 0} (v : Services Item) (item : Item) (r : Record) (x : Option (Break × Raised))
    (s : Running)
    → ((b : Break) (y : Raised) → x ≡ some (b, y) → splits b ≡ false)
    → IsVersioned s.db
    → IsVersioned (process_valid v item r x s).db
process_valid-IsVersioned v item r none s w h = process_record-IsVersioned v r s h
process_valid-IsVersioned v item r (some (b, x)) s w h =
    broken_record-IsVersioned v item b x r s (w b x refl) h

process_item-IsVersioned :
    {Item : Type 0} (v : Services Item) (item : Item) (s : Running)
    → IsUnsplit v
    → IsVersioned s.db
    → IsVersioned (process_item v item s).db
unfolding process_item fail_item
process_item-IsVersioned v item s w h = elim (Result-cases (v.normalize item)) [
  | inl (r, e) ↦ rw e (process_valid-IsVersioned v item r (v.breaks item) _ (w item) h)
  | inr (x, e) ↦ rw e h
]

module _ {Item S : Type 0} (p : Parsing Item S) (P : S → Type 0) where
  parse_items-keeps :
      ((item : Item) (s : S) → P s → P (p.on_item item s))
      → ((e : StageError) (s : S) → P s → P (p.on_error e s))
      → (left : ℕ) (items : List Item) (ending : Option Raised) (s : S) → P s
      → P (parse_items p left items ending s)
  unfolding parse_items parse_end
  parse_items-keeps on_item on_error left [] none s h = h
  parse_items-keeps on_item on_error left [] (some e) s h = on_error _ s h
  parse_items-keeps on_item on_error zero (item ∷ rest) ending s h = on_error _ s h
  parse_items-keeps on_item on_error (suc left) (item ∷ rest) ending s h =
      parse_items-keeps on_item on_error left rest ending (p.on_item item s) (on_item item s h)

add_error-IsBalanced :
    (e : StageError) (s : Running) → IsBalanced s.stats → IsBalanced (add_error e s).stats
unfolding add_error
add_error-IsBalanced e s h = h

add_error-IsVersioned :
    (e : StageError) (s : Running) → IsVersioned s.db → IsVersioned (add_error e s).db
unfolding add_error
add_error-IsVersioned e s h = h

run_connector-keeps :
    {Item : Type 0} (v : Services Item) (P : Running → Type 0)
    → ((item : Item) (s : Running) → P s → P (process_item v item s))
    → ((e : StageError) (s : Running) → P s → P (add_error e s))
    → (res : Result Raised (Feed Item)) (s : Running) → P s
    → P (run_connector v res s)
unfolding parse_source
run_connector-keeps v P on_item on_error (ok feed) s h =
    parse_items-keeps (parsing v) P on_item on_error max_items_per_run feed.items feed.ending s h
run_connector-keeps v P on_item on_error (err x) s h = on_error _ s h

-- Whatever the connector yields and wherever it fails, each item that a run has found is counted
-- exactly once, as created, updated, skipped or failed.
pub run_source-IsBalanced :
    {Item : Type 0} (v : Services Item) (c : Clock) (source : Source) (job : Option IngestionJob)
    (db : Db)
    → IsBalanced (run_source v c source job db).run.counters
unfolding run_source finalise finish_run run_items no_stats
run_source-IsBalanced v c source job db =
    run_connector-keeps v (λ s. IsBalanced s.stats) (process_item-IsBalanced v) add_error-IsBalanced
      v.connector (record { db = db; stats = no_stats }) refl

-- A run of any source, whatever it finds, keeps the invariant of the tables, wherever the connector
-- fails and wherever its items fail, except between the write of a row and of its version: the versions
-- of each opportunity are numbered from 1 to its current one, and identifiers are fresh.
pub run_source-IsVersioned :
    {Item : Type 0} (v : Services Item) (c : Clock) (source : Source) (job : Option IngestionJob)
    (db : Db)
    → IsUnsplit v
    → IsVersioned db
    → IsVersioned (run_source v c source job db).db
unfolding run_source finalise run_items
run_source-IsVersioned v c source job db w h =
    run_connector-keeps v (λ s. IsVersioned s.db) (λ item s. process_item-IsVersioned v item s w)
      add_error-IsVersioned v.connector (record { db = db; stats = no_stats }) h
