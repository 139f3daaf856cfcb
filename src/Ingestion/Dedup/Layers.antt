-- ===== src/Ingestion/Dedup/Layers.antt =====
-- app/ingestion/deduplicator.py: the queries of the four layers. A query without an order returns the
-- first row that fits. The similarity of PostgreSQL's `pg_trgm`, in millionths, and the reference
-- key are parameters.
use tenderbase_api.Prelude.{
  ltb, leb, ◌==◌, if◌then◌else◌, is_some, length, keep, first, ℕ, ◌+◌, ◌*◌, Bool, true, false, not,
  ◌&&◌, ◌||◌, Option, none, some, List, [], ◌∷◌,
}
use tenderbase_api.Prelude.Text.{Text, text_eq, is_empty, strip_by}
use tenderbase_api.Enums.{DuplicateDecision, probable_match, uncertain}
use tenderbase_api.Ingestion.Record.{Field, Value, text, moment, Record, Opportunity}

-- What the deduplicator is given besides the record.
pub record Setting : Type 0 where
  pub enable_fuzzy : Bool
  pub is_postgresql : Bool
  pub has_trigram : Bool
  pub similarity : Text → Text → ℕ
  pub is_space : ℕ → Bool
  pub reference_key : Option Text → Option Text

abbrev pub as_text : Option Value → Option Text
as_text (some (text t)) = some t
as_text _ = none

abbrev pub as_moment : Option Value → Option ℕ
as_moment (some (moment m)) = some m
as_moment _ = none

-- `a or b` of optional texts.
abbrev pub or_else : Option Text → Option Text → Option Text
or_else (some (c ∷ s)) b = some (c ∷ s)
or_else _ b = b

-- SQL's `column = value`, which is `IS NULL` where the value is None.
abbrev pub column_eq : Option Text → Option Text → Bool
column_eq none none = true
column_eq (some a) (some b) = text_eq a b
column_eq _ _ = false

abbrev pub id_eq : Option ℕ → Option ℕ → Bool
id_eq none none = true
id_eq (some a) (some b) = a == b
id_eq _ _ = false

abbrev pub raw_reference : (Field → Option Value) → Option Text
raw_reference fields = as_text (fields Field.reference_number)

-- The scope of layer 1: the municipality where there is one, else the source.
abbrev pub in_issuer_scope : Record → Opportunity → Bool
in_issuer_scope r o =
    if is_some r.municipality_id
    then id_eq o.municipality_id r.municipality_id
    else o.source_id == r.source_id

abbrev pub is_blank : Option Text → Bool
is_blank none = true
is_blank (some s) = is_empty s

-- The conditions of the queries of layers 1, 2 and 3.
abbrev pub layer1_fits : Record → Opportunity → Bool
layer1_fits r o =
    (column_eq o.reference_number_normalized
        (or_else r.reference_number_normalized (raw_reference r.fields))
      || column_eq (raw_reference o.fields) (raw_reference r.fields))
    && in_issuer_scope r o

abbrev pub layer2_fits : Record → Opportunity → Bool
layer2_fits r o = text_eq o.content_hash r.content_hash && o.source_id == r.source_id

abbrev pub layer3_fits : Record → Opportunity → Bool
layer3_fits r o = text_eq o.fingerprint r.fingerprint

-- `_layer1`
unfoldable pub layer1_row : Record → List Opportunity → Option Opportunity
layer1_row r db =
    if is_blank (or_else r.reference_number_normalized (raw_reference r.fields))
    then none
    else first (layer1_fits r) db

-- `_layer2`
unfoldable pub layer2_row : Record → List Opportunity → Option Opportunity
layer2_row r db = if is_empty r.content_hash then none else first (layer2_fits r) db

-- `_layer3`: the row, and then what to say of it
unfoldable pub layer3_row : Record → List Opportunity → Option Opportunity
layer3_row r db = if is_empty r.fingerprint then none else first (layer3_fits r) db

unfoldable pub layer3_decision : Record → Opportunity → DuplicateDecision × ℕ
layer3_decision r o =
    if not (
      o.source_id == r.source_id
      || (is_some r.municipality_id && id_eq o.municipality_id r.municipality_id))
    then (uncertain, 500)
    else if is_some r.municipality_id
        && is_some o.municipality_id
        && not (id_eq o.municipality_id r.municipality_id)
    then (uncertain, 450)
    else (probable_match, 900)

-- Three days in microseconds, and the thresholds in millionths.
abbrev pub closing_window : ℕ
closing_window = 3 * 24 * 3600 * 1000000

abbrev pub review_threshold : ℕ
review_threshold = 650000

abbrev pub probable_threshold : ℕ
probable_threshold = 820000

abbrev is_near : Option ℕ → Option ℕ → Bool
is_near none b = true
is_near (some a) none = true
is_near (some a) (some b) = leb a (b + closing_window) && leb b (a + closing_window)

abbrev opt_id_matches : Option ℕ → Option ℕ → Bool
opt_id_matches none b = true
opt_id_matches (some a) b = id_eq b (some a)

-- The reference condition of layer 4, which reads the normalized column alone.
abbrev reference_allows : Option Text → Option Text → Bool
reference_allows none b = true
reference_allows (some []) b = true
reference_allows (some (c ∷ s)) none = true
reference_allows (some (c ∷ s)) (some t) = text_eq t (c ∷ s)

abbrev pub title_of : (Field → Option Value) → Text
title_of fields = elim (as_text (fields Field.title)) [ none ↦ [] | some t ↦ t ]

unfoldable pub score : Setting → Record → Opportunity → ℕ
score st r o = st.similarity (title_of o.fields) (title_of r.fields)

-- The conditions of the query of layer 4.
unfoldable pub fuzzy_fits : Setting → Record → Opportunity → Bool
unfolding score
fuzzy_fits st r o =
    o.source_id == r.source_id
    && ltb review_threshold (score st r o)
    && opt_id_matches r.municipality_id o.municipality_id
    && reference_allows r.reference_number_normalized o.reference_number_normalized
    && is_near (as_moment (r.fields Field.closing_at)) (as_moment (o.fields Field.closing_at))

-- `ORDER BY similarity DESC LIMIT 1`
unfoldable pub best : (Opportunity → ℕ) → Option Opportunity → List Opportunity → Option Opportunity
best f top [] = top
best f none (o ∷ os) = best f (some o) os
best f (some t) (o ∷ os) = best f (some (if ltb (f t) (f o) then o else t)) os

-- `_layer4`: the row and its score
unfoldable pub layer4_row : Setting → Record → List Opportunity → Option Opportunity
unfolding best fuzzy_fits
layer4_row st r db =
    let title = title_of r.fields in
    if not st.is_postgresql
      || is_empty title
      || ltb (length (strip_by st.is_space title)) 25
      || not st.has_trigram
    then none
    else best (score st r) none (keep (fuzzy_fits st r) db)

unfoldable pub layer4_decision : Setting → Record → Opportunity → DuplicateDecision
unfolding score
layer4_decision st r o = if leb probable_threshold (score st r o) then probable_match else uncertain
