-- ===== src/Witnesses/Verification.antt =====
-- A source with one listing page, verified.
use tenderbase_api.Prelude.{length, ok, ◌≡◌, refl, true, false, none, some, List, [], ◌∷◌}
use tenderbase_api.Prelude.Text.{codes}
use tenderbase_api.Enums.{passed_with_warnings}
use tenderbase_api.Urls.{UrlCheck, validate_url, normalize_url, first_bad, kept_query}
use tenderbase_api.Ingestion.Validator.{
  validate, hard_issues, soft_issues, completeness, classify, date_issues, submission_issues,
  document_issues,
}
use tenderbase_api.Verifier.{
  CheckResult, Connector, ConnectorClass, Context, Item, Page, Target, Verifier, access, build,
  check_connector, check_passed, check_skipped, check_url, check_warning, connector, detail,
  documents, listing, pagination, parse, parser, result, robots, url,
}
use tenderbase_api.Verifier.Listing.{
  accepted, check_access, check_parser, check_targets, discover_targets, usable_items,
}
use tenderbase_api.Verifier.Sampling.{
  candidates, check_detail, check_documents, check_pagination, check_robots, distinct,
}
use tenderbase_api.Verifier.Run.{VerificationReport, verdict, verify}
use tenderbase_api.Verifier.Usable.{HasEvidence, verify-HasEvidence}
use tenderbase_api.Verifier.Reports.{verify-answers}
use tenderbase_api.Witnesses.Fixtures.{web, checks, tender}

abbrev target : Target
target = record { url = codes "http://a.za/"; kind = codes "listing" }

abbrev listing_page : Page
listing_page = record { status_code = 200; size = 40 }

abbrev item : Item
item = record { source_url = some (codes "http://a.za/1"); documents = codes "http://a.za/d" ∷ [] }

abbrev html_listing : Connector
html_listing = record {
  discover = some (target ∷ []);
  discover_again = some (target ∷ []);
  fetch = λ t. some listing_page;
  parse = λ page. some (item ∷ []);
  validate = λ i. some true;
}

abbrev html_class : ConnectorClass
html_class = record { config_schema = []; requires_browser = false; build = some html_listing }

abbrev verifier : Verifier
verifier = record {
  lib = web;
  allow_private_networks = false;
  allowed_ports = 80 ∷ [];
  get_connector_class = λ key type_. some html_class;
  browser_available = false;
  fetch_detail = λ link. some listing_page;
  normalize = λ i. some tender;
  checks = checks;
  requested_items = 3;
}

abbrev context : Context
context = record {
  base_url = codes "http://a.za/";
  connector_key = none;
  connector_type = codes "HTML";
  config_keys = codes "paths" ∷ [];
  robots_policy = codes "RESPECT";
  declares_pagination = false;
}

abbrev checks_made : List CheckResult
checks_made =
    result connector check_warning
    ∷ result url check_passed
    ∷ result listing check_passed
    ∷ result access check_passed
    ∷ result parse check_passed
    ∷ result parser check_passed
    ∷ result robots check_passed
    ∷ result detail check_passed
    ∷ result documents check_passed
    ∷ result pagination check_skipped
    ∷ []

abbrev report : VerificationReport
report = record {
  status = passed_with_warnings;
  http_status = some 200;
  items_discovered = 1;
  documents_found = 1;
  checks = checks_made;
}

built : build verifier context ≡ some html_listing
unfolding build
built = refl

reported : verify verifier context ≡ ok report
unfolding verify validate_url normalize_url first_bad kept_query check_connector check_url build
    discover_targets check_targets check_access check_parser usable_items accepted check_robots
    candidates check_detail check_documents distinct check_pagination verdict validate hard_issues
    soft_issues completeness classify date_issues submission_issues document_issues
reported = refl

verify-HasEvidence_example :
    (items : List Item) × report.items_discovered ≡ length items
    × HasEvidence verifier html_listing items report.http_status
verify-HasEvidence_example =
    verify-HasEvidence verifier context html_listing report built reported refl

abbrev site_check : UrlCheck
site_check = record {
  url = codes "http://a.za/";
  reason = none;
  host = some (codes "a.za");
  resolved_ips = codes "8.8.8.8" ∷ [];
}

site_ok : validate_url web false true (80 ∷ []) (codes "http://a.za/") ≡ ok site_check
unfolding validate_url normalize_url first_bad kept_query
site_ok = refl

verify-answers_example : (r : VerificationReport) × (verify verifier context ≡ ok r)
verify-answers_example =
    verify-answers verifier context html_listing site_check built site_ok (λ i. refl) refl
