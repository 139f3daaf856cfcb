-- ===== src/Verifier/Run.antt =====
-- app/ingestion/verifier.py: `SourceVerifier.verify`, and its report.
use tenderbase_api.Prelude.{
  if◌then◌else◌, length, any, Result, ◌>>=◌, ok, ℕ, ◌+◌, Option, none, some, List, [], ◌∷◌, ◌++◌,
  map,
}
use tenderbase_api.Enums.{VerificationStatus, failed, passed, passed_with_warnings}
use tenderbase_api.Verifier.{
  CheckResult, Connector, Context, Crash, Item, Page, Target, Verifier, blocking, build,
  check_connector, check_skipped, check_url, detail, documents, is_failed, is_warning, result,
}
use tenderbase_api.Verifier.Listing.{check_access, check_parser, discover_targets}
use tenderbase_api.Verifier.Sampling.{check_detail, check_documents, check_pagination, check_robots}

pub record VerificationReport : Type 0 where
  pub status : VerificationStatus
  pub http_status : Option ℕ
  pub items_discovered : ℕ
  pub documents_found : ℕ
  pub checks : List CheckResult

-- What the run knows after the listing.
pub record Found : Type 0 where
  pub checks : List CheckResult
  pub targets : List Target
  pub items : List Item
  pub http_status : Option ℕ

abbrev pub found : List CheckResult → List Target → List Item → Option ℕ → Found
found checks targets items http_status = record {
  checks = checks;
  targets = targets;
  items = items;
  http_status = http_status;
}

-- The checks of a page that was fetched, after those of `before`
abbrev pub read_page :
    Verifier → Connector → List CheckResult → List Target → Option Page → Result Crash Found
read_page v c before targets none = ok (found (before ++ check_access none ∷ []) targets [] none)
read_page v c before targets (some page) = check_parser v c page >>= λ (more, items).
    ok (found (before ++ check_access (some page) ∷ more) targets items (some page.status_code))

abbrev pub read_targets : Verifier → Connector → List CheckResult → List Target → Result Crash Found
read_targets v c before [] = ok (found before [] [] none)
read_targets v c before (t ∷ ts) = read_page v c before (t ∷ ts) (c.fetch t)

-- The listing, where a connector was built
abbrev pub read_listing :
    Verifier → Context → List CheckResult → Option Connector → Result Crash Found
read_listing v x before none = ok (found before [] [] none)
read_listing v x before (some c) =
    let (targets, check) = discover_targets v x c.discover in
    read_targets v c (before ++ check ∷ []) targets

abbrev pub detail_and_documents :
    Verifier → Context → Connector → List Item → Result Crash (List CheckResult)
detail_and_documents v x c [] =
    ok (result detail check_skipped ∷ result documents check_skipped ∷ [])
detail_and_documents v x c (item ∷ items) =
    check_detail v x (item ∷ items) c.discover_again >>= λ check.
    ok (check ∷ check_documents (item ∷ items) ∷ [])

-- The optional checks, in the order that they are appended
abbrev pub optional_checks :
    Verifier → Context → Option Connector → Found → Result Crash (List CheckResult)
optional_checks v x none f = ok (check_robots v x ∷ [])
optional_checks v x (some c) f = detail_and_documents v x c f.items >>= λ more.
    ok (check_robots v x ∷ (more ++ check_pagination x f.targets ∷ []))

-- The verdict over all checks
unfoldable pub verdict : List CheckResult → VerificationStatus
verdict checks =
    if any blocking checks
    then failed
    else if any (λ c. is_warning c.status) checks
    then passed_with_warnings
    else passed

abbrev sum : List ℕ → ℕ
sum [] = 0
sum (n ∷ ns) = n + sum ns

abbrev pub report_of : Found → List CheckResult → VerificationReport
report_of f more = record {
  status = verdict (f.checks ++ more);
  http_status = f.http_status;
  items_discovered = length f.items;
  documents_found = sum (map (λ item. length item.documents) f.items);
  checks = f.checks ++ more;
}

-- The connector that a run drives: none where the URL was refused.
abbrev pub connector_for : Verifier → Context → CheckResult → Option Connector
connector_for v x url_check = if is_failed url_check.status then none else build v x

-- `verify`
unfoldable pub verify : Verifier → Context → Result Crash VerificationReport
unfolding check_connector check_url build discover_targets check_access check_parser check_robots
    check_detail check_documents check_pagination verdict
verify v x = check_url v x >>= λ url_check.
    read_listing v x (check_connector v x ∷ url_check ∷ []) (connector_for v x url_check) >>= λ f.
    optional_checks v x (connector_for v x url_check) f >>= λ more. ok (report_of f more)
