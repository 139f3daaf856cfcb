-- ===== src/Verifier.antt =====
-- app/ingestion/verifier.py: the checks of a source before it is ingested, and their verdict. The
-- connector, the network and the normalizer are a parameter; the texts, the evidence and the durations
-- of a check are not modelled.
pub mod Listing
pub mod Sampling
pub mod Run
pub mod Usable
pub mod Reports
use tenderbase_api.Prelude.{
  ltb, if◌then◌else◌, length, keep, Result, ok, err, ℕ, min, max, Bool, true, false, not, ◌&&◌,
  Option, none, some, List,
}
use tenderbase_api.Prelude.Text.{Text, codes, text_eq, elem}
use tenderbase_api.Enums.{}
use tenderbase_api.Urls.{UrlCheck, UrlError, UrlLib, accepted, is_ok, validate_url}
use tenderbase_api.Ingestion.Record.{Record}
use tenderbase_api.Ingestion.Validator.{Checks}

pub data CheckName : Type 0 where
  url access connector listing parse parser : CheckName
  robots detail documents pagination : CheckName

pub data CheckStatus : Type 0 where
  check_passed check_warning check_failed check_skipped : CheckStatus

-- `REQUIRED_CHECKS`
abbrev pub is_required : CheckName → Bool
is_required robots = false
is_required detail = false
is_required documents = false
is_required pagination = false
is_required _ = true

-- `required` is derived from the name, since no call gives it.
pub record CheckResult : Type 0 where
  pub name : CheckName
  pub status : CheckStatus

abbrev pub is_failed : CheckStatus → Bool
is_failed check_failed = true
is_failed _ = false

abbrev pub is_warning : CheckStatus → Bool
is_warning check_warning = true
is_warning _ = false

abbrev pub result : CheckName → CheckStatus → CheckResult
result name status = record { name = name; status = status }

abbrev pub blocking : CheckResult → Bool
blocking c = is_required c.name && is_failed c.status

abbrev pub max_detail_pages : ℕ
max_detail_pages = 3

pub record Target : Type 0 where
  pub url : Text
  pub kind : Text

pub record Page : Type 0 where
  pub status_code : ℕ
  pub size : ℕ

pub record Item : Type 0 where
  pub source_url : Option Text
  pub documents : List Text

-- A connector that was built; `none` and `false` stand for an exception, except in `validate`, where
-- `none` does. The two calls of `discover` in one run may differ.
pub record Connector : Type 0 where
  pub discover : Option (List Target)
  pub discover_again : Option (List Target)
  pub fetch : Target → Option Page
  pub parse : Page → Option (List Item)
  pub validate : Item → Option Bool

-- A class of the registry; its constructor may raise a `TenderBaseError`.
pub record ConnectorClass : Type 0 where
  pub config_schema : List Text
  pub requires_browser : Bool
  pub build : Option Connector

pub record Context : Type 0 where
  pub base_url : Text
  pub connector_key : Option Text
  pub connector_type : Text
  pub config_keys : List Text
  pub robots_policy : Text
  pub declares_pagination : Bool

pub record Verifier : Type 0 where
  pub lib : UrlLib
  pub allow_private_networks : Bool
  pub allowed_ports : List ℕ
  pub get_connector_class : Option Text → Text → Option ConnectorClass
  pub browser_available : Bool
  pub fetch_detail : Text → Option Page
  pub normalize : Item → Option Record
  pub checks : Checks
  pub requested_items : ℕ

-- `sample_items`
abbrev pub sample_items : Verifier → ℕ
sample_items v = max 1 (min v.requested_items max_detail_pages)

-- An exception that no check catches
pub data Crash : Type 0 where
  url_raises : UrlError → Crash
  validate_raises discover_raises : Crash

-- `provided - accepted - {"timezone"}`
abbrev pub unknown_keys : List Text → List Text → List Text
unknown_keys accepted provided =
    keep (λ k. not (elem k accepted) && not (text_eq k (codes "timezone"))) provided

abbrev pub connector_status : Verifier → List Text → Option ConnectorClass → CheckStatus
connector_status v provided none = check_failed
connector_status v provided (some cls) =
    if cls.requires_browser && not v.browser_available
    then check_failed
    else if ltb 0 (length (unknown_keys cls.config_schema provided))
    then check_warning
    else check_passed

-- `_check_connector`
unfoldable pub check_connector : Verifier → Context → CheckResult
check_connector v x =
    result connector
      (connector_status v x.config_keys (v.get_connector_class x.connector_key x.connector_type))

abbrev pub url_status : UrlCheck → CheckStatus
url_status c = if is_ok c then check_passed else check_failed

abbrev pub url_result : Result UrlError UrlCheck → Result Crash CheckResult
url_result (ok c) = ok (result url (url_status c))
url_result (err e) = err (url_raises e)

-- `_check_url`
unfoldable pub check_url : Verifier → Context → Result Crash CheckResult
unfolding validate_url
check_url v x =
    url_result (validate_url v.lib v.allow_private_networks true v.allowed_ports x.base_url)

abbrev pub build_of : Option ConnectorClass → Option Connector
build_of none = none
build_of (some cls) = cls.build

-- `_build`
unfoldable pub build : Verifier → Context → Option Connector
build v x = build_of (v.get_connector_class x.connector_key x.connector_type)
