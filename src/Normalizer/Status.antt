-- ===== src/Normalizer/Status.antt =====
-- app/ingestion/normalizer.py: when a status is found.
use tenderbase_api.Prelude.{
  if◌then◌else◌, any, ℕ, ◌≡◌, refl, ◌↔◌, ◌⊎◌, Bool, true, false, Option, none, some, [], ◌∷◌, arith,
}
use tenderbase_api.Prelude.Text.{Text, Unicode, codes}
use tenderbase_api.Enums.{unknown, OpportunityStatus}
use tenderbase_api.Enums.Parse.{parse_status}
use tenderbase_api.Normalizer.Matching.{
  first_match-neq, first_match-none, or_else_iff, or_value-eq, product_iff,
}
use tenderbase_api.Normalizer.{
  FieldValue, Fields, any_word, dated_status, first_match, get, if_known, is_truthy, or_else,
  printed_value, stated_status, status, status_keywords,
}

-- No keyword of a status stands in the text.
pub IsSilent : Text → Type 0
IsSilent t = any (λ e. any_word e.1 t) status_keywords ≡ false

-- The item states no status: the field is missing or false, or its text is UNKNOWN or no member and
-- has no keyword.
pub IsUnstated : Unicode → Option FieldValue → Type 0
IsUnstated u none = Unit
IsUnstated u (some v) =
    (is_truthy v ≡ false)
    ⊎ ((parse_status u (some (printed_value v)) ≡ unknown) × IsSilent (u.lower (printed_value v)))

if_known-none : (s : OpportunityStatus) → (if_known s ≡ none) ↔ (s ≡ unknown)
if_known-none s = ground arith

stated_status-none :
    (u : Unicode) (v : Option FieldValue) → (stated_status u v ≡ none) ↔ IsUnstated u v
unfolding stated_status IsUnstated IsSilent
stated_status-none u none = (λ h. tt, λ h. refl)
stated_status-none u (some v) =
    or_else_iff (is_truthy v) (if_known (parse_status u (some (printed_value v))))
      (first_match status_keywords (u.lower (printed_value v)))
      (if_known-none (parse_status u (some (printed_value v))))
      (first_match-none status_keywords (u.lower (printed_value v)))

abbrev pub is_unknown : OpportunityStatus → Bool
is_unknown unknown = true
is_unknown _ = false

stated_known :
    (b : Bool) (s : OpportunityStatus) (w : Option OpportunityStatus)
    → ¬ (w ≡ some unknown)
    → ¬ ((if b then or_else (if_known s) w else none) ≡ some unknown)
stated_known b s w hw h = ground (arith, hw)

stated_status-known : (u : Unicode) (v : Option FieldValue) → ¬ (stated_status u v ≡ some unknown)
unfolding stated_status
stated_status-known u none h = ground arith
stated_status-known u (some v) h =
    stated_known (is_truthy v) (parse_status u (some (printed_value v)))
      (first_match status_keywords (u.lower (printed_value v)))
      (first_match-neq is_unknown status_keywords (u.lower (printed_value v)) refl refl) h

dated_unknown :
    (now : ℕ) (closing_at : Option ℕ)
    → (dated_status now closing_at ≡ unknown) ↔ (closing_at ≡ none)
unfolding dated_status
dated_unknown now closing_at = ground arith

-- The status of a tender is UNKNOWN exactly where nothing speaks of it: the item states no status,
-- no keyword of a status stands in the title, and no closing date was read. A tender with a closing
-- date always has a status.
pub status-unknown :
    (u : Unicode) (now : ℕ) (fields : Fields) (title : Text) (closing_at : Option ℕ)
    → (status u now fields title closing_at ≡ unknown) ↔ (
        IsUnstated u (get fields (codes "status" ∷ codes "state" ∷ []))
        × IsSilent (u.lower title)
        × (closing_at ≡ none))
unfolding status IsSilent
status-unknown u now fields title closing_at =
    let field = get fields (codes "status" ∷ codes "state" ∷ []) in
    product_iff (stated_status-none u field) (first_match-none status_keywords (u.lower title))
      (dated_unknown now closing_at)
      (or_value-eq (stated_status u field) (first_match status_keywords (u.lower title))
        (dated_status now closing_at) unknown (stated_status-known u field)
        (first_match-neq is_unknown status_keywords (u.lower title) refl refl))
