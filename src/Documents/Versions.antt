-- ===== src/Documents/Versions.antt =====
-- app/documents/downloader.py: `download_document`, which records a download on its document and, for
-- bytes that are new, a version; app/db/models/document.py: their rows.
use tenderbase_api.Prelude.{
  if◌then◌else◌, take, any, Result, ok, err, ℕ, ◌+◌, max, Bool, true, false, Option, none, some,
  List, [], ◌∷◌,
}
use tenderbase_api.Prelude.Text.{Text, text_eq}
use tenderbase_api.Documents.Format.{DocumentFormat}

pub record DownloadResult : Type 0 where
  pub sha256 : Text
  pub size : ℕ
  pub mime_type : Option Text
  pub document_format : DocumentFormat
  pub storage_key : Text
  pub downloaded_at : ℕ

pub record DocumentVersion : Type 0 where
  pub version : ℕ
  pub sha256 : Text
  pub file_size : ℕ
  pub mime_type : Option Text
  pub storage_key : Text
  pub downloaded_at : ℕ

-- `Document`, with its own versions, the latest first
pub record StoredDocument : Type 0 where
  pub source_url : Text
  pub filename : Option Text
  pub sha256 : Option Text
  pub file_size : Option ℕ
  pub mime_type : Option Text
  pub document_format : DocumentFormat
  pub storage_key : Option Text
  pub downloaded_at : Option ℕ
  pub download_error : Option Text
  pub is_downloaded : Bool
  pub current_version : ℕ
  pub versions : List DocumentVersion

abbrev pub has_sha : Text → List DocumentVersion → Bool
has_sha sha versions = any (λ v. text_eq v.sha256 sha) versions

-- The largest version number, or 0
unfoldable pub latest : List DocumentVersion → ℕ
latest [] = 0
latest (v ∷ vs) = max v.version (latest vs)

abbrev pub version_of : ℕ → DownloadResult → DocumentVersion
version_of n r = record {
  version = n;
  sha256 = r.sha256;
  file_size = r.size;
  mime_type = r.mime_type;
  storage_key = r.storage_key;
  downloaded_at = r.downloaded_at;
}

abbrev pub add_version : DownloadResult → StoredDocument → StoredDocument
add_version r d = record d {
  current_version = latest d.versions + 1;
  versions = version_of (latest d.versions + 1) r ∷ d.versions;
}

abbrev pub name_or : Option Text → Option Text → Option Text
name_or (some (c ∷ s)) other = some (c ∷ s)
name_or _ other = other

abbrev pub record_download : (Text → Option Text) → DownloadResult → StoredDocument → StoredDocument
record_download filename_from_url r d = record d {
  filename = name_or d.filename (filename_from_url d.source_url);
  sha256 = some r.sha256;
  file_size = some r.size;
  mime_type = r.mime_type;
  document_format = r.document_format;
  storage_key = some r.storage_key;
  downloaded_at = some r.downloaded_at;
  download_error = none;
  is_downloaded = true;
}

-- `download_document`, on what `download` gives: the text of its exception, or its result. The answer
-- tells whether the bytes are new, and is none for a failure.
unfoldable pub download_document :
    (Text → Option Text)
    → Result Text DownloadResult
    → StoredDocument
    → Option Bool × StoredDocument
unfolding latest
download_document filename_from_url (err message) d =
    (none, record d { download_error = some (take 2000 message) })
download_document filename_from_url (ok r) d =
    if has_sha r.sha256 d.versions
    then (some false, record_download filename_from_url r d)
    else (some true, record_download filename_from_url r (add_version r d))
