-- ===== src/Documents/Download.antt =====
-- app/documents/downloader.py: `download`, over the fetcher's `stream_to` and a store of blobs.
pub mod Kept
use tenderbase_api.Prelude.{
  ◌==◌, if◌then◌else◌, is_some, length, take, Result, ok, err, ℕ, Bool, false, not, Option, none,
  some, List, [], ◌∷◌,
}
use tenderbase_api.Prelude.Text.{Text, codes, text_eq, elem}
use tenderbase_api.Fetcher.{Bytes, Env, FetchError, World}
use tenderbase_api.Fetcher.Stream.{Streamed, stream_to}
use tenderbase_api.Documents.Storage.{
  DocumentError, build_storage_key, empty_document, unsupported_type,
}
use tenderbase_api.Documents.Format.{
  DocumentFormat, csv, doc, docx, docx_type, html, pdf, sniff_format, txt, unknown, xls, xlsx,
  xlsx_type, zip,
}
use tenderbase_api.Documents.Versions.{DownloadResult}

abbrev pub Blobs : Type 0
Blobs = List (Text × Bytes)

unfoldable pub blob_at : Text → Blobs → Option Bytes
blob_at key [] = none
blob_at key ((k, b) ∷ rest) = if text_eq k key then some b else blob_at key rest

pub record Downloader : Type 0 where
  pub env : Env
  pub sha256 : Bytes → Text
  pub filename_from_url : Text → Option Text
  pub document_max_bytes : ℕ
  pub now : ℕ

pub data DownloadError : Type 0 where
  fetch_error : FetchError → DownloadError
  document_error : DocumentError → DownloadError

-- `ALLOWED_CONTENT_TYPES`
abbrev pub allowed_content_types : List Text
allowed_content_types =
    codes "application/pdf"
    ∷ codes "application/msword"
    ∷ docx_type
    ∷ codes "application/vnd.ms-excel"
    ∷ xlsx_type
    ∷ codes "application/zip"
    ∷ codes "application/octet-stream"
    ∷ codes "text/plain"
    ∷ codes "text/csv"
    ∷ codes "text/html"
    ∷ []

abbrev pub truthy : Text → Option Text
truthy [] = none
truthy (c ∷ s) = some (c ∷ s)

-- `a or b`
abbrev pub or_type : Option Text → Option Text → Option Text
or_type (some (c ∷ s)) other = some (c ∷ s)
or_type _ other = other

abbrev pub is_refused : Option Text → Bool
is_refused (some (c ∷ s)) = not (elem (c ∷ s) allowed_content_types)
is_refused _ = false

-- `str(document_format).lower()`
abbrev pub extension_text : DocumentFormat → Text
extension_text pdf = codes "pdf"
extension_text doc = codes "doc"
extension_text docx = codes "docx"
extension_text xls = codes "xls"
extension_text xlsx = codes "xlsx"
extension_text csv = codes "csv"
extension_text txt = codes "txt"
extension_text html = codes "html"
extension_text zip = codes "zip"
extension_text unknown = codes "unknown"

-- A blob is written only under a key that is not there.
abbrev pub put_blob : Text → Bytes → Blobs → Blobs
put_blob key bytes blobs = if is_some (blob_at key blobs) then blobs else (key, bytes) ∷ blobs

abbrev pub Stored : Type 0
Stored = Result DownloadError DownloadResult × Blobs

-- From the key on
abbrev pub store_blob :
    Downloader → Bytes → Option Text → DocumentFormat → Blobs → Result DocumentError Text → Stored
store_blob v bytes mime format blobs (err e) = (err (document_error e), blobs)
store_blob v bytes mime format blobs (ok key) = (
  ok (record {
    sha256 = v.sha256 bytes;
    size = length bytes;
    mime_type = mime;
    document_format = format;
    storage_key = key;
    downloaded_at = v.now;
  }),
  put_blob key bytes blobs,
)

-- From the format on
abbrev pub typed_blob :
    Downloader → Bytes → Blobs → Option Text → DocumentFormat × Option Text → Stored
typed_blob v bytes blobs declared (format, sniffed) =
    let mime = or_type sniffed declared in
    if is_refused mime
    then (err (document_error unsupported_type), blobs)
    else store_blob v bytes mime format blobs (
        build_storage_key v.env.lib.unicode (codes "documents") (v.sha256 bytes)
          (some (extension_text format)))

-- From the download on
abbrev pub streamed_blob : Downloader → Text → Blobs → Bytes → Result FetchError Streamed → Stored
streamed_blob v url blobs bytes (err e) = (err (fetch_error e), blobs)
streamed_blob v url blobs bytes (ok s) =
    if length bytes == 0
    then (err (document_error empty_document), blobs)
    else typed_blob v bytes blobs (truthy s.content_type) (
        sniff_format v.env.lib.unicode (take 512 bytes) (truthy s.content_type)
          (v.filename_from_url url))

abbrev pub limit_or : Option ℕ → ℕ → ℕ
limit_or none default = default
limit_or (some n) default = if n == 0 then default else n

-- `download`
unfoldable pub download : Downloader → Text → Option ℕ → World → Blobs → Stored × World
unfolding stream_to build_storage_key sniff_format blob_at
download v url max_bytes w blobs =
    let (r, sink, w') = stream_to v.env (limit_or max_bytes v.document_max_bytes) [] url w in
    (streamed_blob v url blobs sink r, w')
