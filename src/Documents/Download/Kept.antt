-- ===== src/Documents/Download/Kept.antt =====
-- app/documents/downloader.py: a download never changes a stored blob, and stores what it reports.
use tenderbase_api.Prelude.{
  ◌==◌, if◌then◌else◌, Bool-cases, Option-cases, length, take, Result, Gives, Gives-result, ok, err,
  ℕ, ◌≤◌, ◌≡◌, refl, sym, subst, ◌∙◌, ◌⊎◌, inl, inr, Bool, true, false, Option, none, some, [],
  arith,
}
use tenderbase_api.Prelude.Text.{Text, codes, text_eq, text_eq_refl, eq_of_text_eq, before}
use tenderbase_api.Urls.{}
use tenderbase_api.Fetcher.{Bytes, FetchError, World}
use tenderbase_api.Fetcher.Stream.{Streamed, stream_to}
use tenderbase_api.Fetcher.Sink.{stream_to-sink}
use tenderbase_api.Documents.Storage.{
  DocumentError, build_storage_key, empty_document, unsupported_type,
}
use tenderbase_api.Documents.Format.{DocumentFormat, sniff_format}
use tenderbase_api.Documents.Versions.{DownloadResult}
use tenderbase_api.Documents.Download.{
  Blobs, Downloader, Stored, blob_at, document_error, download, extension_text, is_refused,
  limit_or, or_type, put_blob, store_blob, streamed_blob, truthy, typed_blob,
}

-- What is under a key stays there.
abbrev pub Keeps : Blobs → Blobs → Type 0
Keeps before after =
    (key : Text) (b : Bytes) → blob_at key before ≡ some b → blob_at key after ≡ some b

none_not_some : (b : Bytes) → Path (Option Bytes) none (some b) → ⊥
none_not_some b e = absurd (ground (arith, e))

put_blob-Keeps :
    (key : Text) (bytes : Bytes) (blobs : Blobs) → Keeps blobs (put_blob key bytes blobs)
unfolding blob_at
put_blob-Keeps key bytes blobs k b h = elim (Option-cases (blob_at key blobs)) [
  | inr (c, y) ↦ rw y h
  | inl y ↦ elim (Bool-cases (text_eq key k)) [
    | inl z ↦
        absurd (
          none_not_some b (sym (subst (λ x. blob_at x blobs ≡ none) (eq_of_text_eq key k z) y) ∙ h))
    | inr z ↦ rw y (rw z h)
  ]
]

-- The bytes under the key: those that were there, or those of this download.
put_blob-blob_at :
    (key : Text) (bytes : Bytes) (blobs : Blobs)
    → (b : Bytes) × (blob_at key (put_blob key bytes blobs) ≡ some b)
      × ((blob_at key blobs ≡ some b) ⊎ (b ≡ bytes))
unfolding blob_at
put_blob-blob_at key bytes blobs = elim (Option-cases (blob_at key blobs)) [
  | inr (c, y) ↦ (c, rw y (rw y refl), inl y)
  | inl y ↦ (bytes, rw y (rw (text_eq_refl key) refl), inr refl)
]

-- What a result says, after the bytes of a download
abbrev pub IsStored : Blobs → Blobs → Bytes → DownloadResult → Type 0
IsStored before after bytes r =
    is_refused r.mime_type ≡ false
    × r.size ≡ length bytes
    × 1 ≤ r.size
    × ((b : Bytes) × (blob_at r.storage_key after ≡ some b)
        × ((blob_at r.storage_key before ≡ some b) ⊎ (b ≡ bytes)))

abbrev IsSound : Blobs → Bytes → Stored → Type 0
IsSound before bytes (r, after) = Keeps before after × Gives (IsStored before after bytes) r

Keeps-same : (blobs : Blobs) → Keeps blobs blobs
Keeps-same blobs k b h = h

IsSound-if :
    (before : Blobs) (bytes : Bytes) (b : Bool) (x y : Stored)
    → (b ≡ true → IsSound before bytes x)
    → (b ≡ false → IsSound before bytes y)
    → IsSound before bytes (if b then x else y)
IsSound-if before bytes true x y f g = f refl
IsSound-if before bytes false x y f g = g refl

store_blob-IsSound :
    (v : Downloader) (bytes : Bytes) (mime : Option Text) (format : DocumentFormat) (blobs : Blobs)
    (key : Result DocumentError Text)
    → is_refused mime ≡ false
    → 1 ≤ length bytes
    → IsSound blobs bytes (store_blob v bytes mime format blobs key)
store_blob-IsSound v bytes mime format blobs (err e) m n = (Keeps-same blobs, tt)
store_blob-IsSound v bytes mime format blobs (ok key) m n =
    (put_blob-Keeps key bytes blobs, (m, refl, n, put_blob-blob_at key bytes blobs))

typed_blob-IsSound :
    (v : Downloader) (bytes : Bytes) (blobs : Blobs) (declared : Option Text)
    (f : DocumentFormat × Option Text)
    → 1 ≤ length bytes
    → IsSound blobs bytes (typed_blob v bytes blobs declared f)
typed_blob-IsSound v bytes blobs declared (format, sniffed) n =
    let mime = or_type sniffed declared in
    let key =
      build_storage_key v.env.lib.unicode (codes "documents") (v.sha256 bytes)
        (some (extension_text format)) in
    IsSound-if blobs bytes (is_refused mime) (err (document_error unsupported_type), blobs)
      (store_blob v bytes mime format blobs key) (λ _. (Keeps-same blobs, tt))
      (λ y. store_blob-IsSound v bytes mime format blobs key y n)

streamed_blob-IsSound :
    (v : Downloader) (url : Text) (blobs : Blobs) (bytes : Bytes) (r : Result FetchError Streamed)
    → IsSound blobs bytes (streamed_blob v url blobs bytes r)
streamed_blob-IsSound v url blobs bytes (err e) = (Keeps-same blobs, tt)
streamed_blob-IsSound v url blobs bytes (ok s) =
    let declared = truthy s.content_type in
    let format =
      sniff_format v.env.lib.unicode (take 512 bytes) declared (v.filename_from_url url) in
    IsSound-if blobs bytes (length bytes == 0) (err (document_error empty_document), blobs)
      (typed_blob v bytes blobs declared format) (λ _. (Keeps-same blobs, tt))
      (λ y. typed_blob-IsSound v bytes blobs declared format (positive (length bytes) y))
  where
    positive : (n : ℕ) → (n == 0) ≡ false → 1 ≤ n
    positive n h = ground arith

-- A download that gives a result has read between 1 byte and the limit, of a content type that is not
-- refused, and the bytes under the key of its result are those, or those that were there before.
pub download-IsStored :
    (v : Downloader) (url : Text) (limit : Option ℕ) (w : World) (blobs : Blobs)
    (r : DownloadResult)
    → (download v url limit w blobs).0.0 ≡ ok r
    → r.size ≤ limit_or limit v.document_max_bytes
      × IsStored blobs
          (download v url limit w blobs).0.1
          (stream_to v.env (limit_or limit v.document_max_bytes) [] url w).1
          r
unfolding download
download-IsStored v url limit w blobs r e =
    let bytes = (stream_to v.env (limit_or limit v.document_max_bytes) [] url w).1 in
    let (k, g) =
      streamed_blob-IsSound v url blobs bytes
        (stream_to v.env (limit_or limit v.document_max_bytes) [] url w).0 in
    let (m, s, n, b) =
      Gives-result (IsStored blobs (download v url limit w blobs).0.1 bytes)
        (download v url limit w blobs).0.0 r g e in
    (rw s (stream_to-sink v.env (limit_or limit v.document_max_bytes) [] url w), (m, s, n, b))

-- A download, failed ones included, leaves every blob that is stored as it is.
pub download-Keeps :
    (v : Downloader) (url : Text) (limit : Option ℕ) (w : World) (blobs : Blobs)
    → Keeps blobs (download v url limit w blobs).0.1
unfolding download
download-Keeps v url limit w blobs =
    (streamed_blob-IsSound v url blobs
      (stream_to v.env (limit_or limit v.document_max_bytes) [] url w).1
      (stream_to v.env (limit_or limit v.document_max_bytes) [] url w).0).0
