-- ===== src/Witnesses/Files.antt =====
-- Documents: a key, two downloads of one document, and a download that is stored.
use tenderbase_api.Prelude.{leb, ok, err, ◌≤◌, ◌≡◌, refl, false, none, some, [], ◌∷◌, arith}
use tenderbase_api.Prelude.Text.{Text, Unicode, codes, split_on}
use tenderbase_api.Urls.{validate_url, normalize_url, first_bad, kept_query}
use tenderbase_api.Fetcher.{Env, HttpResponse, World}
use tenderbase_api.Fetcher.Politeness.{acquire, next_allowed_of}
use tenderbase_api.Fetcher.Stream.{stream_to, write_body}
use tenderbase_api.Documents.Storage.{build_storage_key}
use tenderbase_api.Documents.Segments.{IsSegment}
use tenderbase_api.Documents.Paths.{build_storage_key-IsSegment}
use tenderbase_api.Documents.Format.{pdf, sniff_format, sniff_signatures, unknown}
use tenderbase_api.Documents.Versions.{DownloadResult, StoredDocument}
use tenderbase_api.Documents.Numbered.{
  Downloads, IsConsistent, after_downloads, after_downloads-IsConsistent,
}
use tenderbase_api.Documents.Download.{Downloader, blob_at, download}
use tenderbase_api.Documents.Download.Kept.{IsStored, download-IsStored}
use tenderbase_api.Witnesses.Fixtures.{ascii, web}

abbrev letters : Unicode
letters = record ascii { is_alnum = λ c. leb 97 c }

abbrev digest : Text
digest = codes "00ffaa11"

abbrev stored_key : Text
stored_key = codes "documents/00/ff/00ffaa11"

key_built : build_storage_key letters (codes "../documents") digest none ≡ ok stored_key
unfolding build_storage_key
key_built = refl

build_storage_key-IsSegment_example :
    (split_on 47 stored_key ≡ codes "documents" ∷ codes "00" ∷ codes "ff" ∷ codes "00ffaa11" ∷ [])
    × IsSegment (codes "documents")
    × IsSegment (codes "00")
    × IsSegment (codes "ff")
    × IsSegment (codes "00ffaa11")
build_storage_key-IsSegment_example =
    build_storage_key-IsSegment letters (codes "../documents") digest none stored_key refl refl
      key_built

abbrev registered : StoredDocument
registered = record {
  source_url = codes "http://a.za/d";
  filename = none;
  sha256 = none;
  file_size = none;
  mime_type = none;
  document_format = unknown;
  storage_key = none;
  downloaded_at = none;
  download_error = none;
  is_downloaded = false;
  current_version = 1;
  versions = [];
}

abbrev downloaded : Text → DownloadResult
downloaded sha = record {
  sha256 = sha;
  size = 3;
  mime_type = none;
  document_format = pdf;
  storage_key = stored_key;
  downloaded_at = 9;
}

abbrev two_downloads : Downloads
two_downloads = ok (downloaded digest) ∷ err (codes "HTTP 503") ∷ ok (downloaded (codes "11")) ∷ []

after_downloads-IsConsistent_example :
    IsConsistent (after_downloads (λ u. none) two_downloads registered)
after_downloads-IsConsistent_example =
    after_downloads-IsConsistent (λ u. none) two_downloads registered
      (tt, omega arith, omega arith, refl)

abbrev answer : HttpResponse
answer = record {
  url = codes "http://a.za/";
  status_code = 200;
  content_type = some (codes "application/pdf");
  content_length = none;
  chunks = codes "%PDF-1" ∷ [];
  broken = false;
}

abbrev env : Env
env = record {
  lib = record web { unicode = letters };
  send = λ rs u. (some answer, 5);
  parse_robots = λ chunks. none;
  uniform = λ rs low high. low;
  allow_private_networks = false;
  allowed_ports = 80 ∷ [];
  respect_robots = false;
  user_agent = codes "bot";
  default_per_minute = 30;
  max_retries = 2;
  max_response_bytes = 100;
  backoff_base = 500000;
  robots_ttl = 3600000000;
}

abbrev downloader : Downloader
downloader = record {
  env = env;
  sha256 = λ bytes. digest;
  filename_from_url = λ u. none;
  document_max_bytes = 50;
  now = 9;
}

abbrev world : World
world = record { now = 7; requests = []; next_allowed = []; robots = [] }

abbrev pdf_result : DownloadResult
pdf_result = record {
  sha256 = digest;
  size = 6;
  mime_type = some (codes "application/pdf");
  document_format = pdf;
  storage_key = codes "documents/00/ff/00ffaa11.pdf";
  downloaded_at = 9;
}

pdf_stored : (download downloader (codes "http://a.za/") none world []).0.0 ≡ ok pdf_result
unfolding download stream_to validate_url normalize_url first_bad kept_query write_body acquire
    next_allowed_of build_storage_key sniff_format sniff_signatures blob_at
pdf_stored = refl

download-IsStored_example :
    pdf_result.size ≤ 50
    × IsStored []
        (download downloader (codes "http://a.za/") none world []).0.1
        (stream_to env 50 [] (codes "http://a.za/") world).1
        pdf_result
download-IsStored_example =
    download-IsStored downloader (codes "http://a.za/") none world [] pdf_result pdf_stored
