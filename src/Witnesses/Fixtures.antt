-- ===== src/Witnesses/Fixtures.antt =====
-- Concrete sources, records, rows and tables.
use tenderbase_api.Prelude.{
  leb, ◌==◌, if◌then◌else◌, is_some, Result, ok, ℕ, ◌+◌, ◌/◌, refl, true, false, none, some, [],
  ◌∷◌, arith,
}
use tenderbase_api.Prelude.Text.{Text, Unicode, codes, text_eq, strip_prefix?}
use tenderbase_api.Enums.{HealthStatus, SourceLifecycle, VerificationStatus, DataQuality}
use tenderbase_api.Source.{Source}
use tenderbase_api.Urls.{Ip, UrlLib}
use tenderbase_api.Ingestion.Record.{Field, text, moment, Fields, Record, Opportunity}
use tenderbase_api.Ingestion.Dedup.Layers.{Setting}
use tenderbase_api.Ingestion.Persist.Tables.{Version, Db, Env}
use tenderbase_api.Ingestion.Persist.History.{IsVersioned, versions_of}
use tenderbase_api.Ingestion.Parser.{Raised, Feed}
use tenderbase_api.Ingestion.Validator.{Checks}
use tenderbase_api.Ingestion.Run.{Services}
use tenderbase_api.Ingestion.Run.Finish.{Clock}

abbrev pub ascii : Unicode
ascii = record { is_space = λ c. c == 32; is_alnum = λ c. leb 48 c; lower = λ t. t; upper = λ t. t }

abbrev pub imported : Source
imported = record {
  id = 7;
  municipality_id = some 3;
  is_active = true;
  priority = 5;
  crawl_frequency_minutes = 60;
  last_run_at = none;
  last_success_at = none;
  last_failure_at = none;
  consecutive_failures = 0;
  average_response_time = none;
  last_http_status = none;
  health_status = HealthStatus.unknown;
  lifecycle_status = SourceLifecycle.discovered;
  verification_status = VerificationStatus.unverified;
  verification_at = none;
  verification_duration_ms = none;
  verification_http_status = none;
  paused_at = none;
  paused_reason = none;
}

abbrev pub active_source : Source
active_source = record imported {
  lifecycle_status = SourceLifecycle.active;
  verification_status = VerificationStatus.passed;
  verification_at = some 1;
  average_response_time = some 20000;
}

abbrev pub tender_fields : Text → Fields
tender_fields title f = elim f [
  | Field.title ↦ some (text title)
  | Field.reference_number ↦ some (text (codes "T1"))
  | Field.source_url ↦ some (text (codes "http://a.za/1"))
  | Field.description ↦ some (text (codes "Roads"))
  | Field.organization ↦ some (text (codes "City"))
  | Field.published_at ↦ some (moment 1000)
  | Field.closing_at ↦ some (moment 2000)
  | _ ↦ none
]

abbrev pub tender : Record
tender = record {
  fields = tender_fields (codes "Road works");
  reference_number_normalized = some (codes "T1");
  municipality_id = some 3;
  province_id = none;
  source_id = 7;
  content_hash = codes "h2";
  fingerprint = codes "f";
  documents = codes "http://a.za/d" ∷ [];
  contact = none;
  data_quality = DataQuality.valid;
  duplicate_review = none;
}

abbrev pub row : Opportunity
row = record {
  id = 0;
  fields = tender_fields (codes "Road work");
  reference_number_normalized = some (codes "T1");
  municipality_id = some 3;
  province_id = none;
  source_id = 7;
  content_hash = codes "h1";
  fingerprint = codes "f";
  contact_id = none;
  data_quality = DataQuality.valid;
  duplicate_review = none;
  version = 1;
  first_seen_at = 1;
  last_seen_at = 1;
}

abbrev pub first_version : Version
first_version = record {
  opportunity_id = 0;
  version = 1;
  content_hash = codes "h1";
  changes = [];
  source_run_id = 1;
  observed_at = 1;
}

abbrev pub one_row : Db
one_row = record {
  next_id = 1;
  opportunities = row ∷ [];
  versions = first_version ∷ [];
  events = [];
  documents = [];
  contacts = [];
}

pub one_row-IsVersioned : IsVersioned one_row
unfolding versions_of
one_row-IsVersioned = record {
  fresh = (omega arith, tt);
  versions_fresh = (omega arith, tt);
  numbered = (refl, tt);
}

abbrev pub environment : Env
environment = record { unicode = ascii; digest = λ c. codes "c"; now = 5000; run_id = 2 }

abbrev pub postgres : Setting
postgres = record {
  enable_fuzzy = true;
  is_postgresql = true;
  has_trigram = true;
  similarity = λ a b. if text_eq a b then 1000000 else 500000;
  is_space = λ c. c == 32;
  reference_key = λ t. t;
}

abbrev pub checks : Checks
checks = record {
  is_space = λ c. c == 32;
  is_http_url = λ u. is_some (strip_prefix? (codes "http://") u);
  now = 5000;
}

abbrev pub services : Result Raised (Feed Record) → Services Record
services connector = record {
  normalize = λ r. ok r;
  breaks = λ r. none;
  url = λ r. codes "http://a.za/1";
  connector = connector;
  base_url = codes "http://a.za";
  limit_message = λ n. codes "Run stopped";
  rejection = λ is. codes "Record rejected";
  setting = postgres;
  checks = checks;
  env = environment;
}

abbrev pub two_items : Feed Record
two_items = record { items = tender ∷ tender ∷ []; ending = none }

-- Half of a hundredth is rounded up.
abbrev pub rounding : ℕ → ℕ
rounding x = (x + 5) / 10

abbrev pub clock : Clock
clock = record { round = rounding; run_id = 2; started = 4000; completed = 9000 }

abbrev pub public_ip : Ip
public_ip = record {
  text = codes "8.8.8.8";
  is_private = false;
  is_loopback = false;
  is_link_local = false;
  is_multicast = false;
  is_reserved = false;
  is_unspecified = false;
}

-- A `urllib` and a resolver that know one site, at a public address.
abbrev pub web : UrlLib
web = record {
  unicode = ascii;
  urlsplit = λ s. ok (record {
    scheme = codes "http";
    netloc = codes "a.za";
    hostname = some (codes "a.za");
    port = ok none;
    path = codes "/";
    query = [];
  });
  urljoin = λ base s. ok s;
  urlunsplit = λ scheme netloc path query. codes "http://a.za/";
  decimal = λ n. [];
  ip_address = λ s. if text_eq s (codes "8.8.8.8") then some public_ip else none;
  getaddrinfo = λ h. codes "8.8.8.8" ∷ [];
}
