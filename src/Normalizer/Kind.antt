-- ===== src/Normalizer/Kind.antt =====
-- app/ingestion/normalizer.py: the type of a tender, and the URLs of its record.
use tenderbase_api.Prelude.{
  if◌then◌else◌, Bool-cases, Result, ok, err, ◌≡◌, ◌⊎◌, inl, inr, Bool, true, false, Option, none,
  some, List, [], ◌∷◌, ◌++◌, arith,
}
use tenderbase_api.Prelude.Text.{Text, Unicode, codes, is_empty}
use tenderbase_api.Enums.Parse.{parse}
use tenderbase_api.Urls.{UrlError, UrlLib, is_http_url, normalize_url}
use tenderbase_api.Normalizer.{
  FieldValue, Fields, container, first_match, flag, get, is_truthy, null, number, or_value,
  printed_value, text,
}

pub data ProcurementType : Type 0 where
  tender rfq rfb rfp rfi eoi expression_of_interest auction other : ProcurementType

-- The members of `ProcurementType`
abbrev pub procurement_types : List (Text × ProcurementType)
procurement_types =
    (codes "TENDER", tender)
    ∷ (codes "RFQ", rfq)
    ∷ (codes "RFB", rfb)
    ∷ (codes "RFP", rfp)
    ∷ (codes "RFI", rfi)
    ∷ (codes "EOI", eoi)
    ∷ (codes "EXPRESSION_OF_INTEREST", expression_of_interest)
    ∷ (codes "AUCTION", auction)
    ∷ (codes "OTHER", other)
    ∷ []

-- `TYPE_KEYWORDS`
abbrev pub type_keywords : List (ProcurementType × List Text)
type_keywords =
    (rfq, codes "rfq" ∷ codes "request for quotation" ∷ codes "quotation" ∷ codes "quote" ∷ [])
    ∷ (rfp, codes "rfp" ∷ codes "request for proposal" ∷ codes "proposal" ∷ [])
    ∷ (rfb, codes "rfb" ∷ codes "request for bid" ∷ [])
    ∷ (rfi, codes "rfi" ∷ codes "request for information" ∷ [])
    ∷ (
      expression_of_interest,
      codes "expression of interest" ∷ codes "eoi" ∷ codes "call for expression" ∷ [],
    )
    ∷ (auction, codes "auction" ∷ codes "disposal by auction" ∷ [])
    ∷ (tender, codes "tender" ∷ codes "bid" ∷ codes "invitation to bid" ∷ [])
    ∷ []

abbrev pub is_other : ProcurementType → Bool
is_other other = true
is_other _ = false

abbrev pub if_named : ProcurementType → Option ProcurementType
if_named other = none
if_named p = some p

-- What `_procurement_type` returns from the item's own type, when that is recognised
unfoldable pub stated_type : Unicode → Option FieldValue → Option ProcurementType
stated_type u none = none
stated_type u (some v) =
    if is_truthy v
    then if_named (parse u procurement_types other (some (printed_value v)))
    else none

-- `haystack_extra`
abbrev pub extra : Option FieldValue → Text
extra none = []
extra (some v) = if is_truthy v then b' ' ∷ printed_value v else []

unfoldable pub haystack : Text → Option Text → Option FieldValue → Text
haystack title description v = title ++ b' ' ∷ (or_value description [] ++ extra v)

abbrev pub type_keys : List Text
type_keys = codes "procurement_type" ∷ codes "type" ∷ codes "category_type" ∷ []

-- `_procurement_type`
unfoldable pub procurement_type : Unicode → Fields → Text → Option Text → ProcurementType
procurement_type u fields title description = or_value (stated_type u (get fields type_keys)) (
    or_value
      (first_match type_keywords (u.lower (haystack title description (get fields type_keys))))
      other)

-- What `_url` returns for a URL that was normalized
abbrev pub http_only : UrlLib → Result UrlError Text → Option Text
http_only lib (err e) = none
http_only lib (ok candidate) = if is_http_url lib (some candidate) then some candidate else none

-- `_url`
unfoldable pub url : UrlLib → Option Text → Option FieldValue → Option Text
url lib base (some (text value)) =
    if is_empty value then none else http_only lib (normalize_url lib base true value)
url lib base _ = none

http_only-http :
    (lib : UrlLib) (r : Result UrlError Text) (candidate : Text)
    → http_only lib r ≡ some candidate
    → is_http_url lib (some candidate) ≡ true
http_only-http lib (err e) candidate h = ground arith
http_only-http lib (ok t) candidate h = elim (Bool-cases (is_http_url lib (some t))) [
  | inl e ↦ ground (arith, e, h)
  | inr e ↦ ground (arith, e, h)
]

-- A URL that the record of a tender gets from a field is an http or https address with a host.
pub url-http :
    (lib : UrlLib) (base : Option Text) (v : Option FieldValue) (candidate : Text)
    → url lib base v ≡ some candidate
    → is_http_url lib (some candidate) ≡ true
unfolding url
url-http lib base none candidate h = ground arith
url-http lib base (some (text t)) candidate h = elim (Bool-cases (is_empty t)) [
  | inl e ↦ ground (arith, e, h)
  | inr e ↦ http_only-http lib (normalize_url lib base true t) candidate (ground (arith, e, h))
]
url-http lib base (some (flag b)) candidate h = ground arith
url-http lib base (some null) candidate h = ground arith
url-http lib base (some (number p b)) candidate h = ground arith
url-http lib base (some (container p b)) candidate h = ground arith

-- The item states no type: the field is missing or false, or its text is OTHER or no member.
pub IsUntyped : Unicode → Option FieldValue → Type 0
IsUntyped u none = Unit
IsUntyped u (some v) =
    (is_truthy v ≡ false) ⊎ (parse u procurement_types other (some (printed_value v)) ≡ other)
