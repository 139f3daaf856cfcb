-- ===== src/Ingestion/Dedup.antt =====
-- app/ingestion/deduplicator.py: the layers in order of decreasing certainty.
pub mod Lists
pub mod Layers
pub mod Issuer
use tenderbase_api.Prelude.{
  if◌then◌else◌, ℕ, ◌+◌, ◌/◌, Bool, true, false, not, Option, none, some, List,
}
use tenderbase_api.Prelude.Text.{Text, text_eq}
use tenderbase_api.Enums.{DuplicateDecision, new, exact_match, probable_match}
use tenderbase_api.Ingestion.Record.{
  Field, Record, Opportunity, Layer, reference, content, fingerprint, trigram, none_matched,
}
use tenderbase_api.Ingestion.Dedup.Layers.{
  Setting, or_else, raw_reference, score, layer1_row, layer2_row, layer3_row, layer3_decision,
  layer4_row, layer4_decision,
}

-- `DedupResult`, with the confidence in thousandths.
pub record DedupResult : Type 0 where
  pub decision : DuplicateDecision
  pub existing_id : Option ℕ
  pub layer : Layer
  pub confidence : ℕ

-- `is_duplicate`
abbrev pub is_duplicate : DuplicateDecision → Bool
is_duplicate exact_match = true
is_duplicate probable_match = true
is_duplicate _ = false

unfoldable pub found : DuplicateDecision → Layer → ℕ → Opportunity → DedupResult
found decision layer confidence o = record {
  decision = decision;
  existing_id = some o.id;
  layer = layer;
  confidence = confidence;
}

-- `_reference_key`
unfoldable pub reference_key_of : Setting → Option Text → Option Text → Option Text
reference_key_of st normalized raw = st.reference_key (or_else normalized raw)

conflict : Option Text → Option Text → Bool
conflict (some incoming) (some existing) = not (text_eq existing incoming)
conflict _ _ = false

-- `_conflicts_with`, at the row that the identifier names
unfoldable pub conflicts_with : Setting → Record → Opportunity → Bool
unfolding reference_key_of conflict
conflicts_with st r o =
    conflict (reference_key_of st r.reference_number_normalized (raw_reference r.fields))
      (reference_key_of st o.reference_number_normalized (raw_reference o.fields))

-- A layer's row, unless its reference says that it is another tender.
unfoldable pub unless_conflict : Setting → Record → Option Opportunity → Option Opportunity
unless_conflict st r none = none
unless_conflict st r (some o) = if conflicts_with st r o then none else some o

abbrev pub or_try : Option DedupResult → Option DedupResult → Option DedupResult
or_try (some a) b = some a
or_try none b = b

unfoldable pub on_row : Option Opportunity → (Opportunity → DedupResult) → Option DedupResult
on_row none f = none
on_row (some o) f = some (f o)

pub no_match : DedupResult
no_match = record { decision = new; existing_id = none; layer = none_matched; confidence = 1000 }

unfoldable pub by_layer1 : Record → List Opportunity → Option DedupResult
unfolding on_row found
by_layer1 r db = on_row (layer1_row r db) (found exact_match reference 990)

unfoldable pub by_layer2 : Setting → Record → List Opportunity → Option DedupResult
unfolding on_row found unless_conflict
by_layer2 st r db = on_row (unless_conflict st r (layer2_row r db)) (found exact_match content 1000)

unfoldable pub by_layer3 : Setting → Record → List Opportunity → Option DedupResult
unfolding on_row found unless_conflict
by_layer3 st r db = on_row (unless_conflict st r (layer3_row r db)) (λ o.
    let (decision, confidence) = layer3_decision r o in found decision fingerprint confidence o)

unfoldable pub by_layer4 : Setting → Record → List Opportunity → Option DedupResult
unfolding on_row found
by_layer4 st r db =
    if st.enable_fuzzy
    then on_row (layer4_row st r db)
        (λ o. found (layer4_decision st r o) trigram ((score st r o + 500) / 1000) o)
    else none

abbrev result_or : Option DedupResult → DedupResult → DedupResult
result_or none d = d
result_or (some r) d = r

-- `find_duplicate`
unfoldable pub find_duplicate : Setting → Record → List Opportunity → DedupResult
unfolding by_layer1 by_layer2 by_layer3 by_layer4 no_match
find_duplicate st r db =
    result_or
      (or_try (by_layer1 r db)
        (or_try (by_layer2 st r db) (or_try (by_layer3 st r db) (by_layer4 st r db))))
      no_match
