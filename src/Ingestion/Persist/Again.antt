-- ===== src/Ingestion/Persist/Again.antt =====
-- app/ingestion/pipeline.py: a record that is persisted a second time.
use tenderbase_api.Prelude.{
  Bool-cases, All, ℕ, ◌≡◌, refl, sym, ap, subst, ◌∙◌, inl, inr, Bool, true, false, Option, List, [],
  ◌∷◌, arith,
}
use tenderbase_api.Prelude.Text.{Text, text_eq, text_eq_refl, eq_of_text_eq, elem}
use tenderbase_api.Ingestion.Record.{Record, Opportunity, estimated_value, reload}
use tenderbase_api.Ingestion.Versioning.{
  diff, sorted_difference, insert_text, diff_fields, tracked_fields,
}
use tenderbase_api.Ingestion.Versioning.Settled.{updated_fields_settled, IsStorable}
use tenderbase_api.Ingestion.Persist.Tables.{Db, Env, urls_of, sync_one, sync_documents}
use tenderbase_api.Ingestion.Persist.{
  row_diff, reload_rows, updated_row, apply_decision, persist_update, not_empty, upsert_contact,
  update_existing, Decision, store_row, seen_row,
}

-- Every candidate is among the URLs.
abbrev pub AllListed : List Text → List Text → Type 0
AllListed urls listed = All (λ url. elem url listed ≡ true) urls

sync_one-keeps :
    (env : Env) (emit : Bool) (id : ℕ) (url other : Text) (db : Db)
    → elem other (urls_of id db.documents) ≡ true
    → elem other (urls_of id (sync_one env emit id url db).documents) ≡ true
unfolding sync_one
sync_one-keeps env emit id url other db h = elim (Bool-cases (elem url (urls_of id db.documents))) [
  | inl e ↦ rw e h
  | inr e ↦ rw e (ground (arith, h))
]

sync_one-adds :
    (env : Env) (emit : Bool) (id : ℕ) (url : Text) (db : Db)
    → elem url (urls_of id (sync_one env emit id url db).documents) ≡ true
unfolding sync_one
sync_one-adds env emit id url db = elim (Bool-cases (elem url (urls_of id db.documents))) [
  | inl e ↦ rw e e
  | inr e ↦ rw e (ground (arith, text_eq_refl url))
]

sync_documents-keeps :
    (env : Env) (emit : Bool) (id : ℕ) (urls : List Text) (other : Text) (db : Db)
    → elem other (urls_of id db.documents) ≡ true
    → elem other (urls_of id (sync_documents env emit id urls db).documents) ≡ true
unfolding sync_documents
sync_documents-keeps env emit id [] other db h = h
sync_documents-keeps env emit id (url ∷ urls) other db h =
    sync_documents-keeps env emit id urls other (sync_one env emit id url db)
      (sync_one-keeps env emit id url other db h)

sync_documents-AllListed :
    (env : Env) (emit : Bool) (id : ℕ) (urls : List Text) (db : Db)
    → AllListed urls (urls_of id (sync_documents env emit id urls db).documents)
unfolding sync_documents
sync_documents-AllListed env emit id [] db = tt
sync_documents-AllListed env emit id (url ∷ urls) db = (
  sync_documents-keeps env emit id urls url (sync_one env emit id url db)
      (sync_one-adds env emit id url db),
  sync_documents-AllListed env emit id urls (sync_one env emit id url db),
)

sorted_difference-nil : (a b : List Text) → AllListed a b → sorted_difference a b ≡ []
unfolding sorted_difference
sorted_difference-nil [] b h = refl
sorted_difference-nil (s ∷ ss) b h = rw (h.0, sorted_difference-nil ss b h.1)

-- The row and the documents that an update leaves show no change to the same record in a later session.
apply_decision-settled :
    (env : Env) (numeric : Text → Text) (contact_id : Option ℕ) (r : Record) (o : Opportunity)
    (db : Db)
    → IsStorable numeric (r.fields estimated_value)
    → let o' = reload numeric (updated_row env r (row_diff env r o db) contact_id o) in
      (row_diff env r o'
        (reload_rows numeric (apply_decision env r (row_diff env r o db) o db))).changed
      ≡ false
unfolding apply_decision row_diff diff updated_row
apply_decision-settled env numeric contact_id r o db w = rw (
  (updated_fields_settled env.unicode numeric o.fields r.fields w).3,
  sorted_difference-nil r.documents _ (sync_documents-AllListed env true o.id r.documents _),
)

persist_update-unchanged :
    (b : Bool) (env : Env) (r : Record) (d : Decision) (o : Opportunity) (db : Db)
    → b ≡ false
    → persist_update b env r d o db ≡ (false, store_row (seen_row env r o) db)
unfolding persist_update
persist_update-unchanged true env r d o db h = absurd (ground arith)
persist_update-unchanged false env r d o db h = refl

persist_update-changed :
    (b : Bool) (env : Env) (r : Record) (d : Decision) (o : Opportunity) (db : Db)
    → b ≡ true
    → persist_update b env r d o db ≡ (true, apply_decision env r d o db)
unfolding persist_update
persist_update-changed true env r d o db h = refl
persist_update-changed false env r d o db h = absurd (ground arith)

-- What the first update leaves.
abbrev pub row_after : Env → Record → Opportunity → Db → Opportunity
row_after env r o db = updated_row env r (row_diff env r o db) (upsert_contact env r.contact db).0 o

-- A record that changed a row changes it once, if its estimated value is written as its column gives it
-- back: the same record, seen again at any later moment and in any later run and session, writes no
-- version, no event and no document, and only notes that the row was seen.
pub update_existing_again :
    (env : Env) (numeric : Text → Text) (later run : ℕ) (r : Record) (o : Opportunity) (db : Db)
    → IsStorable numeric (r.fields estimated_value)
    → (row_diff env r o db).changed ≡ true
    → let db' = reload_rows numeric (update_existing env r o db).1 in
      let env' = record env { now = later; run_id = run } in
      let o' = reload numeric (row_after env r o db) in
      ((update_existing env r o db).0 ≡ true)
      × (update_existing env' r o' db' ≡ (false, store_row (seen_row env' r o') db'))
unfolding update_existing
update_existing_again env numeric later run r o db w h =
    let first =
      persist_update-changed (row_diff env r o db).changed env r (row_diff env r o db) o db h in
    let env' = record env { now = later; run_id = run } in
    let o' = reload numeric (row_after env r o db) in
    (
      ap (λ p. p.0) first,
      subst
          (λ (x : Db).
            persist_update (row_diff env' r o' (reload_rows numeric x)).changed env' r
              (row_diff env' r o' (reload_rows numeric x)) o' (reload_rows numeric x)
            ≡ (false, store_row (seen_row env' r o') (reload_rows numeric x)))
          (sym (ap (λ p. p.1) first))
          (persist_update-unchanged _ env' r _ o' _ (
            unfold row_diff in
            apply_decision-settled env numeric (upsert_contact env r.contact db).0 r o db w)),
    )

insert_text-not_empty : (s : Text) (ts : List Text) → not_empty (insert_text s ts) ≡ true
unfolding insert_text
insert_text-not_empty s [] = refl
insert_text-not_empty s (t ∷ ts) = ground arith

sorted_difference-not_empty :
    (a b : List Text) (url : Text)
    → elem url a ≡ true
    → elem url b ≡ false
    → not_empty (sorted_difference a b) ≡ true
unfolding sorted_difference
sorted_difference-not_empty [] b url h k = h
sorted_difference-not_empty (s ∷ ss) b url h k = elim (Bool-cases (elem s b)) [
  | inl e ↦ rw e (
      sorted_difference-not_empty ss b url
        (elim (Bool-cases (text_eq url s)) [
          | inl same ↦ absurd (
              let p : true ≡ false =
                sym e ∙ ap (λ (t : Text). elem t b) (sym (eq_of_text_eq url s same)) ∙ k in
              cc)
          | inr other ↦ ground (arith, h, other)
        ])
        k)
  | inr e ↦ rw e (insert_text-not_empty s (sorted_difference ss b))
]

-- A document that disappears from the listing leaves no trace when nothing else changed: if the
-- record has the row's fields and only known documents, then even where a stored document is no
-- longer listed the update writes no event and no version.
pub update_existing-removal_unrecorded :
    (env : Env) (r : Record) (o : Opportunity) (db : Db) (url : Text)
    → diff_fields env.unicode o.fields r.fields tracked_fields ≡ []
    → AllListed r.documents (urls_of o.id db.documents)
    → elem url (urls_of o.id db.documents) ≡ true
    → elem url r.documents ≡ false
    → (not_empty (row_diff env r o db).documents_removed ≡ true)
      × ((update_existing env r o db).0 ≡ false)
      × ((update_existing env r o db).1.events ≡ db.events)
      × ((update_existing env r o db).1.versions ≡ db.versions)
unfolding update_existing row_diff diff
update_existing-removal_unrecorded env r o db url same known was gone =
    let unchanged =
      persist_update-unchanged (row_diff env r o db).changed env r (row_diff env r o db) o db
        (rw (same, sorted_difference-nil r.documents (urls_of o.id db.documents) known)) in
    (
      sorted_difference-not_empty (urls_of o.id db.documents) r.documents url was gone,
      ap (λ p. p.0) unchanged,
      ap (λ p. p.1.events) unchanged,
      ap (λ p. p.1.versions) unchanged,
    )
