-- ===== src/Ingestion/Versioning.antt =====
-- app/ingestion/versioning.py: `VersionEngine.diff`, what changed between a stored row and a record.
-- A field's value is compared in the form that `_comparable` gives it: `to_iso` is one to one on
-- UTC moments, so a moment stands for its text.
pub mod Tracked
pub mod Settled
use tenderbase_api.Prelude.{
  ltb, ◌==◌, if◌then◌else◌, is_some, Bool, true, false, not, ◌&&◌, ◌||◌, Option, none, some, List,
  [], ◌∷◌,
}
use tenderbase_api.Prelude.Text.{Text, Unicode, text_eq, elem}
use tenderbase_api.Enums.{
  OpportunityStatus, EventType, opportunity_updated, deadline_changed, briefing_changed,
  document_added, document_removed, submission_changed, status_changed, award_posted,
}
use tenderbase_api.Enums.Parse.{parse_status}
use tenderbase_api.Ingestion.Record.{
  Field, reference_number, title, description, procurement_type, status, organization, published_at,
  closing_at, estimated_value, currency, submission_method, submission_url, submission_address,
  briefing_required, briefing_compulsory, briefing_date, briefing_location, source_url,
  canonical_url, Value, text, moment, flag, decimal, Record, Fields, set_field,
}

-- `TRACKED_FIELDS`
abbrev pub tracked_fields : List Field
tracked_fields =
    reference_number ∷ title ∷ description ∷ procurement_type ∷ status ∷ organization ∷ published_at
    ∷ closing_at ∷ estimated_value ∷ currency ∷ submission_method ∷ submission_url
    ∷ submission_address ∷ briefing_required ∷ briefing_compulsory ∷ briefing_date
    ∷ briefing_location ∷ source_url ∷ canonical_url ∷ []

-- `_comparable`
unfoldable pub comparable : Value → Value
comparable (decimal negative t) = text t
comparable v = v

abbrev bool_eq : Bool → Bool → Bool
bool_eq true b = b
bool_eq false b = not b

unfoldable pub value_eq : Value → Value → Bool
value_eq (text a) (text b) = text_eq a b
value_eq (moment a) (moment b) = a == b
value_eq (flag a) (flag b) = bool_eq a b
value_eq (decimal s a) (decimal t b) = bool_eq s t && text_eq a b
value_eq _ _ = false

-- The tests at the head of the loop: is the field skipped?
unfoldable pub same_value : Option Value → Option Value → Bool
unfolding value_eq comparable
same_value old none = true
same_value none (some new) = false
same_value (some old) (some new) = value_eq (comparable old) (comparable new)

-- `_status_event`
unfoldable pub status_event : OpportunityStatus → EventType
status_event OpportunityStatus.cancelled = EventType.cancelled
status_event OpportunityStatus.extended = EventType.extended
status_event OpportunityStatus.awarded = award_posted
status_event _ = status_changed

abbrev value_text : Option Value → Option Text
value_text (some (text t)) = some t
value_text _ = none

-- `FIELD_EVENTS`, and `_status_event` for the status
unfoldable pub event_for : Unicode → Field → Option Value → EventType
unfolding status_event
event_for u closing_at new = deadline_changed
event_for u briefing_date new = briefing_changed
event_for u briefing_location new = briefing_changed
event_for u submission_method new = submission_changed
event_for u submission_url new = submission_changed
event_for u submission_address new = submission_changed
event_for u status new = status_event (parse_status u (value_text new))
event_for u _ new = opportunity_updated

-- One entry of `changed_fields` with its event.
pub record Change : Type 0 where
  pub name : Field
  pub old : Option Value
  pub new : Option Value
  pub event : EventType

unfoldable pub change_of : Unicode → Fields → Fields → Field → Change
unfolding event_for
change_of u old new f = record { name = f; old = old f; new = new f; event = event_for u f (new f) }

unfoldable pub diff_fields : Unicode → Fields → Fields → List Field → List Change
unfolding change_of
diff_fields u old new [] = []
diff_fields u old new (f ∷ fs) =
    let rest = diff_fields u old new fs in
    if same_value (old f) (new f) then rest else change_of u old new f ∷ rest

-- `sorted(a - b)` of two sets of texts
abbrev text_le : Text → Text → Bool
text_le [] t = true
text_le (c ∷ s) [] = false
text_le (c ∷ s) (d ∷ t) = if c == d then text_le s t else ltb c d

unfoldable pub insert_text : Text → List Text → List Text
insert_text s [] = s ∷ []
insert_text s (t ∷ ts) =
    if text_eq s t then t ∷ ts else if text_le s t then s ∷ t ∷ ts else t ∷ insert_text s ts

unfoldable pub sorted_difference : List Text → List Text → List Text
unfolding insert_text
sorted_difference [] b = []
sorted_difference (s ∷ ss) b =
    let rest = sorted_difference ss b in if elem s b then rest else insert_text s rest

-- `VersionDecision`: `documents_added` and `documents_removed` are entries of `changed_fields`
-- where they are not empty.
pub record Decision : Type 0 where
  pub changed : Bool
  pub changes : List Change
  pub documents_added : List Text
  pub documents_removed : List Text

abbrev pub not_empty {ℓ} : {A : Type ℓ} → List A → Bool
not_empty [] = false
not_empty (x ∷ xs) = true

-- `diff`; the stored documents are the second argument
unfoldable pub diff : Unicode → Fields → List Text → Record → Decision
unfolding diff_fields sorted_difference
diff u old old_documents r =
    let changes = diff_fields u old r.fields tracked_fields in
    let added = sorted_difference r.documents old_documents in
    record {
      changed = not_empty changes || not_empty added;
      changes = changes;
      documents_added = added;
      documents_removed = sorted_difference old_documents r.documents;
    }

-- The loop of `_update_existing` over the changed fields (pipeline.py).
unfoldable pub apply_changes : Fields → List Change → Fields → Fields
apply_changes new [] stored = stored
apply_changes new (c ∷ cs) stored =
    apply_changes new cs
      (if is_some (new c.name) then set_field c.name (new c.name) stored else stored)
