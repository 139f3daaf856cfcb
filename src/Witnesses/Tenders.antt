-- ===== src/Witnesses/Tenders.antt =====
-- Tenders: duplicates, versions, validation and persistence of a concrete record and row.
use mathlib.Core.List.{Memᴰ}
use tenderbase_api.Prelude.{
  if◌then◌else◌, is_some, ◌≤◌, ◌≡◌, refl, ◌⊎◌, true, false, some, [], ◌∷◌, ◌++◌,
}
use tenderbase_api.Prelude.Text.{Text, codes, elem, has_char}
use tenderbase_api.Enums.{DataQuality}
use tenderbase_api.Ingestion.Record.{
  Fields, column_value, estimated_value, decimal, reload, reload_fields, Field, Record, Opportunity,
}
use tenderbase_api.Ingestion.Dedup.{find_duplicate, is_duplicate, no_match}
use tenderbase_api.Ingestion.Dedup.Layers.{layer1_row}
use tenderbase_api.Ingestion.Dedup.Issuer.{
  SharesScope, is_content, differs, IsAbout, find_duplicate_sound, merged-SharesScope,
}
use tenderbase_api.Ingestion.Versioning.{same_value, diff_fields, tracked_fields, not_empty, diff}
use tenderbase_api.Ingestion.Versioning.Settled.{updated_fields, updated_fields_settled}
use tenderbase_api.Ingestion.Persist.{reload_rows, update_existing, row_diff, store_row, seen_row}
use tenderbase_api.Ingestion.Persist.Tables.{Db, urls_of}
use tenderbase_api.Ingestion.Persist.Again.{
  row_after, update_existing_again, update_existing-removal_unrecorded,
}
use tenderbase_api.Ingestion.Validator.{
  validate, completeness, hard_issues, soft_issues, classify, date_issues, submission_issues,
  document_issues, hard_issues, soft_issues, classify,
}
use tenderbase_api.Ingestion.Validator.Consistency.{IsConsistent, validate-valid}
use tenderbase_api.Witnesses.Fixtures.{ascii, tender, row, one_row, environment, postgres, checks}

row-Mem : Memᴰ row one_row.opportunities
row-Mem = Memᴰ.head refl

find_duplicate_sound_example :
    (find_duplicate postgres tender (row ∷ []) ≡ no_match)
    ⊎ IsAbout postgres tender (row ∷ []) (find_duplicate postgres tender (row ∷ []))
find_duplicate_sound_example = find_duplicate_sound postgres tender (row ∷ [])

merged : is_duplicate (find_duplicate postgres tender (row ∷ [])).decision ≡ true
unfolding find_duplicate layer1_row
merged = refl

merged-SharesScope_example :
    (o : Opportunity) × Memᴰ o (row ∷ [])
    × ((find_duplicate postgres tender (row ∷ [])).existing_id ≡ some o.id)
    × SharesScope tender o
    × (is_content (find_duplicate postgres tender (row ∷ [])).layer ≡ false
        → differs tender.municipality_id o.municipality_id ≡ false)
merged-SharesScope_example = merged-SharesScope postgres tender (row ∷ []) merged

-- The tender with an estimated value that is written with two decimals
abbrev priced_fields : Fields
priced_fields estimated_value = some (decimal false (codes "8500000.00"))
priced_fields f = tender.fields f

abbrev priced : Record
priced = record tender { fields = priced_fields }

-- `Numeric(18, 2)` on a whole number or one with two decimals
abbrev two_decimals : Text → Text
two_decimals t = if has_char b'.' t then t else t ++ codes ".00"

updated_fields_settled_example :
    ((f : Field)
      → same_value (updated_fields ascii row.fields priced.fields f) (priced.fields f) ≡ true)
    × ((f : Field)
        → is_some (row.fields f) ≡ true
        → is_some (updated_fields ascii row.fields priced.fields f) ≡ true)
    × ((f : Field)
        → same_value (row.fields f) (priced.fields f) ≡ true
        → updated_fields ascii row.fields priced.fields f ≡ row.fields f)
    × (diff_fields ascii
          (reload_fields two_decimals (updated_fields ascii row.fields priced.fields))
          priced.fields
          tracked_fields
        ≡ [])
updated_fields_settled_example =
    updated_fields_settled ascii two_decimals row.fields priced.fields refl

row-changed : (row_diff environment priced row one_row).changed ≡ true
unfolding row_diff diff diff_fields same_value
row-changed = refl

update_existing_again_example :
    let db' = reload_rows two_decimals (update_existing environment priced row one_row).1 in
    let env' = record environment { now = 6000; run_id = 3 } in
    let o' = reload two_decimals (row_after environment priced row one_row) in
    ((update_existing environment priced row one_row).0 ≡ true)
    × (update_existing env' priced o' db' ≡ (false, store_row (seen_row env' priced o') db'))
update_existing_again_example =
    update_existing_again environment two_decimals 6000 3 priced row one_row refl row-changed

-- A value without decimals comes back with them, and is then another text.
unsettled_value :
    same_value
      (column_value two_decimals (some (decimal false (codes "8500000"))))
      (some (decimal false (codes "8500000")))
    ≡ false
unfolding same_value
unsettled_value = refl

-- A listing without the document that is stored.
abbrev bare : Record
bare = record tender { fields = row.fields; documents = [] }

abbrev documented : Db
documented = record one_row {
  documents = record { opportunity_id = 0; source_url = codes "d" } ∷ [];
}

same_fields : diff_fields ascii row.fields row.fields tracked_fields ≡ []
unfolding diff_fields same_value
same_fields = refl

stored : elem (codes "d") (urls_of 0 documented.documents) ≡ true
unfolding urls_of
stored = refl

update_existing-removal_unrecorded_example :
    (not_empty (row_diff environment bare row documented).documents_removed ≡ true)
    × ((update_existing environment bare row documented).0 ≡ false)
    × ((update_existing environment bare row documented).1.events ≡ documented.events)
    × ((update_existing environment bare row documented).1.versions ≡ documented.versions)
update_existing-removal_unrecorded_example =
    update_existing-removal_unrecorded environment bare row documented (codes "d") same_fields tt
      stored refl

tender_valid : (validate checks tender).quality ≡ DataQuality.valid
unfolding validate hard_issues soft_issues completeness classify date_issues submission_issues
    document_issues
tender_valid = refl

validate-valid_example : IsConsistent checks tender × (70 ≤ completeness tender)
validate-valid_example = validate-valid checks tender tender_valid
