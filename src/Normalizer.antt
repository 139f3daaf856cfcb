-- ===== src/Normalizer.antt =====
-- app/ingestion/normalizer.py: how the normalizer finds the status, the type and the briefing of a
-- tender in the fields of a raw item (app/connectors/base.py). A field holds a text, a flag, null, or
-- a number or a container, which stand as what `str` prints with whether they are zero or empty. The
-- description and the title have been cleaned before. An instant is a number; `now` is `utcnow()`.
pub mod Matching
pub mod Status
pub mod Kind
pub mod Briefing
use tenderbase_api.Prelude.{
  leb, if◌then◌else◌, is_some, any, ℕ, Bool, true, false, not, ◌||◌, Option, none, some, List, [],
  ◌∷◌, ◌++◌,
}
use tenderbase_api.Prelude.Text.{Text, Unicode, codes, text_eq, is_empty, elem, strip_by, contains}
use tenderbase_api.Enums.{
  OpportunityStatus, awarded, cancelled, closed, extended, open_, suspended, unknown,
}
use tenderbase_api.Enums.Parse.{parse_status}

pub data FieldValue : Type 0 where
  text : Text → FieldValue
  flag : Bool → FieldValue
  null : FieldValue
  number : (printed : Text) → (is_zero : Bool) → FieldValue
  container : (printed : Text) → (is_hollow : Bool) → FieldValue

-- `RawItem.fields`
abbrev pub Fields : Type 0
Fields = List (Text × FieldValue)

-- `value not in (None, "", [], {})`
abbrev pub is_present : FieldValue → Bool
is_present (text t) = not (is_empty t)
is_present (flag b) = true
is_present null = false
is_present (number printed is_zero) = true
is_present (container printed is_hollow) = not is_hollow

-- `if value`
abbrev pub is_truthy : FieldValue → Bool
is_truthy (text t) = not (is_empty t)
is_truthy (flag b) = b
is_truthy null = false
is_truthy (number printed is_zero) = not is_zero
is_truthy (container printed is_hollow) = not is_hollow

-- `str(value)`
abbrev pub printed_value : FieldValue → Text
printed_value (text t) = t
printed_value (flag true) = codes "True"
printed_value (flag false) = codes "False"
printed_value null = codes "None"
printed_value (number printed is_zero) = printed
printed_value (container printed is_hollow) = printed

-- `self.fields.get(key)`
abbrev pub field? : Text → Fields → Option FieldValue
field? key [] = none
field? key ((k, v) ∷ fields) = if text_eq k key then some v else field? key fields

abbrev pub or_present : Option FieldValue → Option FieldValue → Option FieldValue
or_present none later = later
or_present (some v) later = if is_present v then some v else later

unfoldable pub get : Fields → List Text → Option FieldValue
get fields [] = none
get fields (key ∷ keys) = or_present (field? key fields) (get fields keys)

abbrev pub any_word : List Text → Text → Bool
any_word words t = any (λ w. contains w t) words

abbrev pub or_else {ℓ} : {A : Type ℓ} → Option A → Option A → Option A
or_else none later = later
or_else (some a) later = some a

abbrev pub or_value {ℓ} : {A : Type ℓ} → Option A → A → A
or_value none later = later
or_value (some a) later = a

module _ {A : Type 0} where
  -- `for candidate, keywords in …: if any(keyword in haystack …): return candidate`
  unfoldable pub first_match : List (A × List Text) → Text → Option A
  first_match [] t = none
  first_match ((a, words) ∷ table) t = if any_word words t then some a else first_match table t

-- `STATUS_KEYWORDS`
abbrev pub status_keywords : List (OpportunityStatus × List Text)
status_keywords =
    (cancelled, codes "cancelled" ∷ codes "canceled" ∷ codes "withdrawn" ∷ [])
    ∷ (awarded, codes "awarded" ∷ codes "award notice" ∷ codes "successful bidder" ∷ [])
    ∷ (extended, codes "extended" ∷ codes "extension of closing" ∷ [])
    ∷ (suspended, codes "suspended" ∷ codes "on hold" ∷ [])
    ∷ (closed, codes "closed" ∷ codes "expired" ∷ [])
    ∷ (
      open_,
      codes "open"
          ∷ codes "advertised"
          ∷ codes "current"
          ∷ codes "active"
          ∷ codes "invitation"
          ∷ [],
    )
    ∷ []

abbrev pub if_known : OpportunityStatus → Option OpportunityStatus
if_known unknown = none
if_known s = some s

-- What `_status` returns from the item's own status, when that is recognised
unfoldable pub stated_status : Unicode → Option FieldValue → Option OpportunityStatus
stated_status u none = none
stated_status u (some v) =
    if is_truthy v
    then or_else (if_known (parse_status u (some (printed_value v))))
        (first_match status_keywords (u.lower (printed_value v)))
    else none

unfoldable pub dated_status : ℕ → Option ℕ → OpportunityStatus
dated_status now none = unknown
dated_status now (some closing_at) = if leb now closing_at then open_ else closed

-- `_status`
unfoldable pub status : Unicode → ℕ → Fields → Text → Option ℕ → OpportunityStatus
status u now fields title closing_at =
    or_value (stated_status u (get fields (codes "status" ∷ codes "state" ∷ [])))
      (or_value (first_match status_keywords (u.lower title)) (dated_status now closing_at))

abbrev pub briefing_words : List Text
briefing_words =
    codes "briefing"
    ∷ codes "site meeting"
    ∷ codes "site inspection"
    ∷ codes "clarification meeting"
    ∷ []

abbrev pub compulsory_words : List Text
compulsory_words = codes "compulsory" ∷ codes "mandatory" ∷ []

-- What `_briefing_required` returns from the item's own flag
abbrev pub stated_briefing : Unicode → Option FieldValue → Option Bool
stated_briefing u (some (flag b)) = some b
stated_briefing u (some (text t)) =
    if elem (u.lower (strip_by u.is_space t))
      (codes "yes" ∷ codes "true" ∷ codes "y" ∷ codes "compulsory" ∷ codes "mandatory" ∷ [])
    then some true
    else if elem (u.lower (strip_by u.is_space t)) (
        codes "no"
        ∷ codes "false"
        ∷ codes "n"
        ∷ codes "none"
        ∷ codes "not applicable"
        ∷ codes "n/a"
        ∷ [])
    then some false
    else none
stated_briefing u _ = none

abbrev pub has_text : Option Text → Bool
has_text none = false
has_text (some t) = not (is_empty t)

-- `_briefing_required`
unfoldable pub briefing_required : Unicode → Fields → Option ℕ → Option Text → Option Bool
briefing_required u fields briefing_date briefing_location =
    or_else (stated_briefing u (get fields (codes "briefing_required" ∷ [])))
      (if is_some briefing_date || has_text briefing_location then some true else none)

-- `str(item.fields.get(key, ""))`
abbrev pub field_text : Fields → Text → Text
field_text fields key = elim (field? key fields) [ none ↦ [] | some v ↦ printed_value v ]

unfoldable pub briefing_blob : Unicode → Fields → Text
briefing_blob u fields = u.lower (
    field_text fields (codes "briefing_required")
    ++ b' '
      ∷ (field_text fields (codes "briefing_location")
          ++ b' '
            ∷ (field_text fields (codes "briefing")
                ++ b' ' ∷ field_text fields (codes "description"))))

unfoldable pub compulsory_in : Text → Option Bool
compulsory_in blob =
    if not (any_word briefing_words blob)
    then none
    else if any_word compulsory_words blob
    then some true
    else if contains (codes "non-compulsory") blob
        || contains (codes "not compulsory") blob
        || contains (codes "optional") blob
    then some false
    else none

-- `_briefing_compulsory`
unfoldable pub briefing_compulsory : Unicode → Fields → Option Bool
briefing_compulsory u fields = compulsory_in (briefing_blob u fields)
