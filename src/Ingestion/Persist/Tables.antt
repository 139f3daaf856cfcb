-- ===== src/Ingestion/Persist/Tables.antt =====
-- app/db/models, app/ingestion/pipeline.py: the tables that persistence writes, `_upsert_contact` and
-- `_sync_documents`. New rows stand at the head of their table; an identifier is the next free
-- number; the digest of a contact is a parameter.
use tenderbase_api.Prelude.{
  ◌==◌, if◌then◌else◌, ℕ, ◌+◌, Bool, false, not, ◌||◌, Option, none, some, List, [], ◌∷◌,
}
use tenderbase_api.Prelude.Text.{Text, Unicode, text_eq, is_empty, elem}
use tenderbase_api.Enums.{EventType, document_added}
use tenderbase_api.Ingestion.Record.{Contact, Opportunity}
use tenderbase_api.Ingestion.Versioning.{Change}

-- `OpportunityVersion`, `OpportunityEvent`, `Document` and `Contact` rows
pub record Version : Type 0 where
  pub opportunity_id : ℕ
  pub version : ℕ
  pub content_hash : Text
  pub changes : List Change
  pub source_run_id : ℕ
  pub observed_at : ℕ

pub record Event : Type 0 where
  pub opportunity_id : ℕ
  pub event_type : EventType
  pub version : Option ℕ
  pub occurred_at : ℕ

pub record Document : Type 0 where
  pub opportunity_id : ℕ
  pub source_url : Text

pub record Db : Type 0 where
  pub next_id : ℕ
  pub opportunities : List Opportunity
  pub versions : List Version
  pub events : List Event
  pub documents : List Document
  pub contacts : List (Text × ℕ)

-- The given: the Unicode tables, the contact's digest, the moment and the run.
pub record Env : Type 0 where
  pub unicode : Unicode
  pub digest : Contact → Text
  pub now : ℕ
  pub run_id : ℕ

abbrev pub given : Option Text → Bool
given none = false
given (some t) = not (is_empty t)

unfoldable pub find_contact : Text → List (Text × ℕ) → Option ℕ
find_contact t [] = none
find_contact t ((k, id) ∷ rest) = if text_eq k t then some id else find_contact t rest

unfoldable pub add_contact : Text → Option ℕ → Db → Option ℕ × Db
add_contact t (some id) db = (some id, db)
add_contact t none db = (
  some db.next_id,
  record db { next_id = db.next_id + 1; contacts = (t, db.next_id) ∷ db.contacts },
)

-- `_upsert_contact`
unfoldable pub upsert_contact : Env → Option Contact → Db → Option ℕ × Db
unfolding find_contact add_contact
upsert_contact env none db = (none, db)
upsert_contact env (some c) db =
    if given c.name || given c.email || given c.phone
    then add_contact (env.digest c) (find_contact (env.digest c) db.contacts) db
    else (none, db)

-- The URLs of an opportunity's documents.
unfoldable pub urls_of : ℕ → List Document → List Text
urls_of id [] = []
urls_of id (d ∷ ds) =
    let rest = urls_of id ds in if d.opportunity_id == id then d.source_url ∷ rest else rest

-- One candidate of `_sync_documents`.
unfoldable pub sync_one : Env → Bool → ℕ → Text → Db → Db
unfolding urls_of
sync_one env emit id url db = if elem url (urls_of id db.documents) then db else record db {
  documents = record { opportunity_id = id; source_url = url } ∷ db.documents;
  events =
      if emit
      then record {
        opportunity_id = id;
        event_type = document_added;
        version = none;
        occurred_at = env.now;
      }
        ∷ db.events
      else db.events;
}

-- `_sync_documents`
unfoldable pub sync_documents : Env → Bool → ℕ → List Text → Db → Db
unfolding sync_one
sync_documents env emit id [] db = db
sync_documents env emit id (url ∷ urls) db =
    sync_documents env emit id urls (sync_one env emit id url db)
