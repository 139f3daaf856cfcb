-- ===== src/Ingestion/Persist/Unbroken.antt =====
-- app/ingestion/pipeline.py: the breaks that keep the version history.
use mathlib.Core.List.{Memᴰ}
use tenderbase_api.Prelude.{
  if◌then◌else◌, ◌≡◌, refl, subst, Bool, false, ◌||◌, Option, none, some, some-injective, [], arith,
}
use tenderbase_api.Ingestion.Record.{Opportunity, Record}
use tenderbase_api.Ingestion.Versioning.{Decision}
use tenderbase_api.Ingestion.Persist.Tables.{Db, Env, sync_documents}
use tenderbase_api.Ingestion.Persist.{
  add_version, apply_decision, create_opportunity, row_diff, updated_row,
}
use tenderbase_api.Ingestion.Persist.History.{
  IsVersioned, apply_decision-IsVersioned, create_opportunity-IsVersioned,
}
use tenderbase_api.Ingestion.Persist.Partial.{
  documents, version, contact, loading, validating, partial_create, partial_update, interrupted,
  Break, splits, is_early,
}

-- An opportunity without its documents is what the record without documents would leave.
partial_create-IsVersioned :
    (b : Break) (env : Env) (r : Record) (db : Db)
    → splits b ≡ false
    → IsVersioned db
    → IsVersioned (partial_create b env r db)
unfolding partial_create
partial_create-IsVersioned validating env r db s h = h
partial_create-IsVersioned loading env r db s h = h
partial_create-IsVersioned contact env r db s h = h
partial_create-IsVersioned version env r db s h = absurd (ground arith)
partial_create-IsVersioned documents env r db s h =
    unfold create_opportunity sync_documents in
    create_opportunity-IsVersioned env (record r { documents = [] }) db h

partial_update-IsVersioned :
    (b : Break) (env : Env) (r : Record) (d : Decision) (o : Opportunity) (db : Db)
    → splits b ≡ false
    → Memᴰ o db.opportunities
    → IsVersioned db
    → IsVersioned (partial_update b env r d o db)
unfolding partial_update
partial_update-IsVersioned validating env r d o db s m h = h
partial_update-IsVersioned loading env r d o db s m h = h
partial_update-IsVersioned contact env r d o db s m h = absurd (ground arith)
partial_update-IsVersioned version env r d o db s m h = absurd (ground arith)
partial_update-IsVersioned documents env r d o db s m h =
    unfold apply_decision sync_documents updated_row add_version in
    apply_decision-IsVersioned env (record r { documents = [] }) d o db m h

interrupted_of : (c : Bool) (x y : Db) → (if c then some x else none) ≡ some y → x ≡ y
interrupted_of c x y h = ground (arith, h)

-- A break that does not stand between a row and its version leaves the version history of every
-- opportunity numbered from 1 to its current version.
pub interrupted-IsVersioned :
    (b : Break) (env : Env) (r : Record) (o : Option Opportunity) (db after : Db)
    → splits b ≡ false
    → ((x : Opportunity) → o ≡ some x → Memᴰ x db.opportunities)
    → IsVersioned db
    → interrupted b env r o db ≡ some after
    → IsVersioned after
unfolding interrupted
interrupted-IsVersioned b env r none db after s m h e =
    subst IsVersioned (some-injective (partial_create b env r db) after e)
      (partial_create-IsVersioned b env r db s h)
interrupted-IsVersioned b env r (some o) db after s m h e =
    subst IsVersioned (interrupted_of (is_early b || (row_diff env r o db).changed) _ after e)
      (partial_update-IsVersioned b env r (row_diff env r o db) o db s (m o refl) h)
