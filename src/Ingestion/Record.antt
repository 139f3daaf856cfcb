-- ===== src/Ingestion/Record.antt =====
-- app/schemas/tender.py, app/db/models/opportunity.py, app/db/models/document.py: the normalized
-- record and the rows that persistence writes. The tracked fields of a record and of a row are a
-- function of the field's name, as `getattr` and `setattr` use them. A `Decimal` is its sign and
-- its `str`, a moment is UTC microseconds, an enumeration's member is its text, and an identifier
-- is a number.
use mathlib.Core.Logic.{ite}
use tenderbase_api.Prelude.{ℕ, Bool, Option, some, List}
use tenderbase_api.Prelude.Text.{Text}
use tenderbase_api.Enums.{DataQuality}

-- `TRACKED_FIELDS` of versioning.py
pub data Field : Type 0 where
  reference_number title description procurement_type status organization : Field
  published_at closing_at estimated_value currency submission_method submission_url : Field
  submission_address briefing_required briefing_compulsory briefing_date : Field
  briefing_location source_url canonical_url : Field

unfoldable pub Field-discrete : Discrete Field
Field-discrete = hlevel

pub data Value : Type 0 where
  text : Text → Value
  moment : ℕ → Value
  flag : Bool → Value
  decimal : Bool → Text → Value

abbrev pub Fields : Type 0
Fields = Field → Option Value

-- `setattr`, on the row of the session
abbrev pub set_field : Field → Option Value → Fields → Fields
set_field f v fields g = ite (Field-discrete f g) v (fields g)

pub record Contact : Type 0 where
  pub name : Option Text
  pub email : Option Text
  pub phone : Option Text
  pub organization : Option Text
  pub role : Option Text

-- The duplicate that a reviewer is asked about, and the layer that found it.
pub data Layer : Type 0 where
  reference content fingerprint trigram none_matched : Layer

-- `NormalizedOpportunity`
pub record Record : Type 0 where
  pub fields : Fields
  pub reference_number_normalized : Option Text
  pub municipality_id : Option ℕ
  pub province_id : Option ℕ
  pub source_id : ℕ
  pub content_hash : Text
  pub fingerprint : Text
  pub documents : List Text
  pub contact : Option Contact
  pub data_quality : DataQuality
  pub duplicate_review : Option (Option ℕ × Layer)

-- `ProcurementOpportunity`
pub record Opportunity : Type 0 where
  pub id : ℕ
  pub fields : Fields
  pub reference_number_normalized : Option Text
  pub municipality_id : Option ℕ
  pub province_id : Option ℕ
  pub source_id : ℕ
  pub content_hash : Text
  pub fingerprint : Text
  pub contact_id : Option ℕ
  pub data_quality : DataQuality
  pub duplicate_review : Option (Option ℕ × Layer)
  pub version : ℕ
  pub first_seen_at : ℕ
  pub last_seen_at : ℕ

-- `Numeric(18, 2)`: what a later session reads. The text of a Decimal that was stored in such a column is
-- a parameter.
abbrev pub column_value : (Text → Text) → Option Value → Option Value
column_value numeric (some (decimal negative t)) = some (decimal negative (numeric t))
column_value numeric v = v

unfoldable pub reload_fields : (Text → Text) → Fields → Fields
reload_fields numeric fields estimated_value = column_value numeric (fields estimated_value)
reload_fields numeric fields f = fields f

-- A row that a later session reads
abbrev pub reload : (Text → Text) → Opportunity → Opportunity
reload numeric o = record o { fields = reload_fields numeric o.fields }
