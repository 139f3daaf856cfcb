-- ===== src/Ingestion/Persist/Partial.antt =====
-- app/ingestion/pipeline.py: what `_create_opportunity` and `_update_existing` have written where an
-- exception leaves them. `run_source` catches it for the item and rolls nothing back.
use tenderbase_api.Prelude.{if◌then◌else◌, Bool, true, false, ◌||◌, Option, none, some, [], ◌++◌}
use tenderbase_api.Ingestion.Record.{Opportunity, Record}
use tenderbase_api.Ingestion.Versioning.{Decision}
use tenderbase_api.Ingestion.Persist.Tables.{Db, Env, upsert_contact}
use tenderbase_api.Ingestion.Persist.{
  add_row, add_version, creation_event, decision_events, row_diff, store_row, updated_row,
}

-- Where `_process_item` raises: in the validation; in the search for a duplicate, or in loading and
-- comparing its row; in `_upsert_contact`; in `build_version`; in `_sync_documents`, before it adds any
-- document.
pub data Break : Type 0 where
  validating loading contact version documents : Break

-- A new opportunity, broken off
unfoldable pub partial_create : Break → Env → Record → Db → Db
partial_create validating env r db = db
partial_create loading env r db = db
partial_create contact env r db = db
partial_create version env r db =
    let (contact_id, db') = upsert_contact env r.contact db in add_row env r contact_id db'
partial_create documents env r db =
    let (contact_id, db') = upsert_contact env r.contact db in
    let id = db'.next_id in
    creation_event env id (add_version env id 1 r [] (add_row env r contact_id db'))

-- A row that changed, broken off after its fields and its version number are assigned
unfoldable pub partial_update : Break → Env → Record → Decision → Opportunity → Db → Db
partial_update validating env r d o db = db
partial_update loading env r d o db = db
partial_update contact env r d o db = store_row (updated_row env r d none o) db
partial_update version env r d o db =
    let (contact_id, db') = upsert_contact env r.contact db in
    store_row (updated_row env r d contact_id o) db'
partial_update documents env r d o db =
    let (contact_id, db') = upsert_contact env r.contact db in
    let o' = updated_row env r d contact_id o in
    let db'' = add_version env o.id o'.version r d.changes (store_row o' db') in
    record db'' { events = decision_events env o.id o'.version d ++ db''.events }

abbrev pub is_early : Break → Bool
is_early validating = true
is_early loading = true
is_early _ = false

-- The tables that the item leaves, or none where it ends before the break: an update without a change
-- asks for no contact, writes no version and reads no documents.
unfoldable pub interrupted : Break → Env → Record → Option Opportunity → Db → Option Db
interrupted b env r none db = some (partial_create b env r db)
interrupted b env r (some o) db =
    if is_early b || (row_diff env r o db).changed
    then some (partial_update b env r (row_diff env r o db) o db)
    else none

-- The breaks that leave a row whose version is not stored
abbrev pub splits : Break → Bool
splits contact = true
splits version = true
splits _ = false

abbrev pub is_validating : Break → Bool
is_validating validating = true
is_validating _ = false
