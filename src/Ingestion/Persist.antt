-- ===== src/Ingestion/Persist.antt =====
-- app/ingestion/pipeline.py: `_create_opportunity` and `_update_existing`.
pub mod Tables
pub mod History
pub mod Again
pub mod Partial
pub mod Unbroken
use tenderbase_api.Prelude.{
  ◌==◌, if◌then◌else◌, ℕ, ◌+◌, Bool, true, false, Option, none, some, List, [], ◌∷◌, ◌++◌, map,
}
use tenderbase_api.Enums.{EventType, opportunity_created, document_added, document_removed}
use tenderbase_api.Prelude.Text.{Text}
use tenderbase_api.Ingestion.Record.{Record, Opportunity, reload}
use tenderbase_api.Ingestion.Versioning.{Change, Decision, not_empty, diff, apply_changes}
use tenderbase_api.Ingestion.Persist.Tables.{
  Event, Db, Env, upsert_contact, urls_of, sync_documents,
}

-- `build_version`, added to its table
unfoldable pub add_version : Env → ℕ → ℕ → Record → List Change → Db → Db
add_version env id number r changes db = record db {
  versions =
      record {
        opportunity_id = id;
        version = number;
        content_hash = r.content_hash;
        changes = changes;
        source_run_id = env.run_id;
        observed_at = env.now;
      }
      ∷ db.versions;
}

unfoldable pub event_row : Env → ℕ → Option ℕ → EventType → Event
event_row env id version type = record {
  opportunity_id = id;
  event_type = type;
  version = version;
  occurred_at = env.now;
}

-- `build_events`
change_events : Env → ℕ → ℕ → List Change → List Event
unfolding event_row
change_events env id number [] = []
change_events env id number (c ∷ cs) =
    event_row env id (some number) c.event ∷ change_events env id number cs

unfoldable pub decision_events : Env → ℕ → ℕ → Decision → List Event
unfolding change_events event_row
decision_events env id number d =
    change_events env id number d.changes
    ++ ((if not_empty d.documents_added
          then event_row env id (some number) document_added ∷ []
          else [])
        ++ (if not_empty d.documents_removed
            then event_row env id (some number) document_removed ∷ []
            else []))

unfoldable pub add_row : Env → Record → Option ℕ → Db → Db
add_row env r contact_id db = record db {
  next_id = db.next_id + 1;
  opportunities =
      record {
        id = db.next_id;
        fields = r.fields;
        reference_number_normalized = r.reference_number_normalized;
        municipality_id = r.municipality_id;
        province_id = r.province_id;
        source_id = r.source_id;
        content_hash = r.content_hash;
        fingerprint = r.fingerprint;
        contact_id = contact_id;
        data_quality = r.data_quality;
        duplicate_review = r.duplicate_review;
        version = 1;
        first_seen_at = env.now;
        last_seen_at = env.now;
      }
      ∷ db.opportunities;
}

unfoldable pub creation_event : Env → ℕ → Db → Db
creation_event env id db = record db {
  events =
      record {
        opportunity_id = id;
        event_type = opportunity_created;
        version = none;
        occurred_at = env.now;
      }
      ∷ db.events;
}

-- `_create_opportunity`
unfoldable pub create_opportunity : Env → Record → Db → Db
unfolding add_row add_version creation_event
create_opportunity env r db =
    let (contact_id, db') = upsert_contact env r.contact db in
    let id = db'.next_id in
    sync_documents env false id r.documents
      (creation_event env id (add_version env id 1 r [] (add_row env r contact_id db')))

-- The row's assignments by identifier.
unfoldable pub replace_row : Opportunity → List Opportunity → List Opportunity
replace_row o [] = []
replace_row o (x ∷ xs) = if x.id == o.id then o ∷ replace_row o xs else x ∷ replace_row o xs

abbrev pub store_row : Opportunity → Db → Db
store_row o db = record db { opportunities = replace_row o db.opportunities }

abbrev or_keep : Option ℕ → Option ℕ → Option ℕ
or_keep none old = old
or_keep (some id) old = some id

-- The tables that a later session reads (expire_on_commit is off: the rows of one session keep what was
-- assigned to them)
abbrev pub reload_rows : (Text → Text) → Db → Db
reload_rows numeric db = record db { opportunities = map (reload numeric) db.opportunities }

-- The row after an update that changed something.
unfoldable pub updated_row : Env → Record → Decision → Option ℕ → Opportunity → Opportunity
updated_row env r d contact_id o = record o {
  fields = apply_changes r.fields d.changes o.fields;
  content_hash = r.content_hash;
  fingerprint = r.fingerprint;
  data_quality = r.data_quality;
  duplicate_review = r.duplicate_review;
  contact_id = or_keep contact_id o.contact_id;
  version = o.version + 1;
  last_seen_at = env.now;
}

unfoldable pub seen_row : Env → Record → Opportunity → Opportunity
seen_row env r o = record o { content_hash = r.content_hash; last_seen_at = env.now }

-- The diff of a stored row, with the documents that `_load_opportunity` reads.
unfoldable pub row_diff : Env → Record → Opportunity → Db → Decision
row_diff env r o db = diff env.unicode o.fields (urls_of o.id db.documents) r

-- The writes of `_update_existing` where something changed.
unfoldable pub apply_decision : Env → Record → Decision → Opportunity → Db → Db
unfolding updated_row add_version
apply_decision env r d o db =
    let (contact_id, db') = upsert_contact env r.contact db in
    let o' = updated_row env r d contact_id o in
    let db'' = add_version env o.id o'.version r d.changes (store_row o' db') in
    sync_documents env true o.id r.documents
      (record db'' { events = decision_events env o.id o'.version d ++ db''.events })

-- The two ways to end: a new version, or a row that was only seen again.
unfoldable pub persist_update : Bool → Env → Record → Decision → Opportunity → Db → Bool × Db
unfolding apply_decision seen_row
persist_update true env r d o db = (true, apply_decision env r d o db)
persist_update false env r d o db = (false, store_row (seen_row env r o) db)

-- `_update_existing`
unfoldable pub update_existing : Env → Record → Opportunity → Db → Bool × Db
unfolding row_diff persist_update
update_existing env r o db = let d = row_diff env r o db in persist_update d.changed env r d o db
