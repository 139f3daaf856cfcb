-- ===== src/Documents/Numbered.antt =====
-- app/documents/downloader.py: the versions of a document over any sequence of downloads.
use tenderbase_api.Prelude.{
  Bool-cases, length, Result, ok, err, suc, ◌≤◌, max, ◌≡◌, refl, inl, inr, Bool, true, false, not,
  ◌||◌, Option, none, some, List, [], ◌∷◌, arith,
}
use tenderbase_api.Prelude.Text.{Text, text_eq_refl}
use tenderbase_api.Documents.Versions.{
  DocumentVersion, DownloadResult, StoredDocument, download_document, has_sha, latest,
}

-- Numbered from 1 in the order of their downloads, no two with the same bytes.
abbrev pub IsNumbered : List DocumentVersion → Type 0
IsNumbered [] = Unit
IsNumbered (v ∷ vs) = v.version ≡ suc (length vs) × has_sha v.sha256 vs ≡ false × IsNumbered vs

abbrev pub is_known : Option Text → List DocumentVersion → Bool
is_known none versions = false
is_known (some sha) versions = has_sha sha versions

-- The versions are numbered, the current one is among their numbers, or 1 before there is any, and the
-- bytes of a downloaded document are those of one of its versions.
abbrev pub IsConsistent : StoredDocument → Type 0
IsConsistent d =
    IsNumbered d.versions
    × 1 ≤ d.current_version
    × d.current_version ≤ max 1 (length d.versions)
    × (not d.is_downloaded || is_known d.sha256 d.versions) ≡ true

latest-IsNumbered : (vs : List DocumentVersion) → IsNumbered vs → latest vs ≡ length vs
unfolding latest
latest-IsNumbered [] h = refl
latest-IsNumbered (v ∷ vs) (a, b, c) = omega (arith, a, latest-IsNumbered vs c)

abbrev pub Downloads : Type 0
Downloads = List (Result Text DownloadResult)

-- The document after these downloads, in turn
unfoldable pub after_downloads : (Text → Option Text) → Downloads → StoredDocument → StoredDocument
unfolding download_document
after_downloads filename_from_url [] d = d
after_downloads filename_from_url (r ∷ rs) d =
    after_downloads filename_from_url rs (download_document filename_from_url r d).1

download_document-IsConsistent :
    (f : Text → Option Text) (r : Result Text DownloadResult) (d : StoredDocument)
    → IsConsistent d
    → IsConsistent (download_document f r d).1
unfolding download_document
download_document-IsConsistent f (err message) d h = h
download_document-IsConsistent f (ok r) d (a, b, c, e) =
    elim (Bool-cases (has_sha r.sha256 d.versions)) [
      | inl y ↦ rw y (a, b, c, y)
      | inr y ↦
          let n = latest-IsNumbered d.versions a in
          rw y (
            (omega (arith, n), y, a),
            omega arith,
            omega (arith, n),
            rw (text_eq_refl r.sha256) refl,
          )
    ]

-- Over any sequence of downloads, failed ones included, a document stays consistent: its versions are
-- numbered without gaps from 1 in the order in which their bytes came first, no two of them have the
-- same hash, the current version is one of them, and so is the hash on the document.
pub after_downloads-IsConsistent :
    (f : Text → Option Text) (rs : Downloads) (d : StoredDocument)
    → IsConsistent d
    → IsConsistent (after_downloads f rs d)
unfolding after_downloads
after_downloads-IsConsistent f [] d h = h
after_downloads-IsConsistent f (r ∷ rs) d h =
    after_downloads-IsConsistent f rs (download_document f r d).1
      (download_document-IsConsistent f r d h)
