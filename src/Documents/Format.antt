-- ===== src/Documents/Format.antt =====
-- app/documents/downloader.py: the format of a download, from its first bytes. Bytes are numbers.
use mathlib.Core.List.{reverse}
use tenderbase_api.Prelude.{
  leb, if◌then◌else◌, is_some, take, ℕ, ◌+◌, Bool, true, false, ◌&&◌, ◌||◌, Option, none, some,
  List, [], ◌∷◌, map,
}
use tenderbase_api.Prelude.Text.{
  Text, Unicode, codes, text_eq, elem, has_char, before, strip_prefix?, contains,
}
use tenderbase_api.Enums.Parse.{parse}

pub data DocumentFormat : Type 0 where
  pdf doc docx xls xlsx csv txt html zip unknown : DocumentFormat

-- The members of `DocumentFormat`
abbrev pub document_formats : List (Text × DocumentFormat)
document_formats =
    (codes "PDF", pdf)
    ∷ (codes "DOC", doc)
    ∷ (codes "DOCX", docx)
    ∷ (codes "XLS", xls)
    ∷ (codes "XLSX", xlsx)
    ∷ (codes "CSV", csv)
    ∷ (codes "TXT", txt)
    ∷ (codes "HTML", html)
    ∷ (codes "ZIP", zip)
    ∷ (codes "UNKNOWN", unknown)
    ∷ []

-- `MAGIC_SIGNATURES`
abbrev pub magic_signatures : List (Text × DocumentFormat × Text)
magic_signatures =
    (codes "%PDF-", pdf, codes "application/pdf")
    ∷ (80 ∷ 75 ∷ 3 ∷ 4 ∷ [], zip, codes "application/zip")
    ∷ (208 ∷ 207 ∷ 17 ∷ 224 ∷ [], doc, codes "application/msword")
    ∷ (codes "<!DOCTYPE html", html, codes "text/html")
    ∷ (codes "<html", html, codes "text/html")
    ∷ []

abbrev pub docx_type : Text
docx_type = codes "application/vnd.openxmlformats-officedocument.wordprocessingml.document"

abbrev pub xlsx_type : Text
xlsx_type = codes "application/vnd.openxmlformats-officedocument.spreadsheetml.sheet"

-- `OOXML_TYPES.get(declared_type)`
abbrev pub ooxml_format : Option Text → Option DocumentFormat
ooxml_format none = none
ooxml_format (some t) =
    if text_eq t docx_type then some docx else if text_eq t xlsx_type then some xlsx else none

abbrev pub is_html : DocumentFormat → Bool
is_html html = true
is_html _ = false

abbrev pub is_zip : DocumentFormat → Bool
is_zip zip = true
is_zip _ = false

-- `bytes.lower`
abbrev lower_byte : ℕ → ℕ
lower_byte c = if leb 65 c && leb c 90 then c + 32 else c

abbrev starts_with : Text → Text → Bool
starts_with head signature = is_some (strip_prefix? signature head)

abbrev matches : Text → Text → DocumentFormat → Bool
matches head signature format =
    starts_with head signature
    || is_html format && contains (map lower_byte signature) (map lower_byte (take 200 head))

-- `filename.rsplit(".", 1)[-1]`
abbrev extension_of : Text → Text
extension_of name = reverse (before 46 (reverse name))

abbrev office_extensions : List Text
office_extensions = codes "docx" ∷ codes "xlsx" ∷ codes "pptx" ∷ []

abbrev pub named_format :
    Unicode
    → Option Text
    → Option Text
    → DocumentFormat × Option Text
    → DocumentFormat × Option Text
named_format u declared none otherwise = otherwise
named_format u declared (some name) otherwise =
    if has_char 46 name && elem (u.lower (extension_of name)) office_extensions
    then (parse u document_formats unknown (some (u.lower (extension_of name))), declared)
    else otherwise

abbrev pub zip_format :
    Unicode
    → Option Text
    → Option Text
    → Option DocumentFormat
    → DocumentFormat × Option Text
    → DocumentFormat × Option Text
zip_format u declared name (some format) otherwise = (format, declared)
zip_format u declared name none otherwise = named_format u declared name otherwise

-- What is returned for a signature that matches
abbrev pub signed :
    Unicode → Option Text → Option Text → DocumentFormat → Text → DocumentFormat × Option Text
signed u declared name format mime =
    if is_zip format
    then zip_format u declared name (ooxml_format declared) (format, some mime)
    else (format, some mime)

abbrev pub is_type : Text → Option Text → Bool
is_type t none = false
is_type t (some d) = text_eq d t

abbrev pub guess_name : Unicode → Option Text → Option Text → DocumentFormat × Option Text
guess_name u declared none = (unknown, declared)
guess_name u declared (some name) =
    if has_char 46 name
    then (parse u document_formats unknown (some (extension_of name)), declared)
    else (unknown, declared)

abbrev pub declared_format :
    Unicode → Option Text → Option Text → Option DocumentFormat → DocumentFormat × Option Text
declared_format u declared name (some format) = (format, declared)
declared_format u declared name none =
    if is_type (codes "text/csv") declared
    then (csv, declared)
    else if is_type (codes "text/plain") declared
    then (txt, declared)
    else guess_name u declared name

unfoldable pub sniff_signatures :
    Unicode
    → Text
    → Option Text
    → Option Text
    → List (Text × DocumentFormat × Text)
    → DocumentFormat × Option Text
unfolding parse
sniff_signatures u head declared name [] = declared_format u declared name (ooxml_format declared)
sniff_signatures u head declared name ((signature, format, mime) ∷ rest) =
    let later = sniff_signatures u head declared name rest in
    if matches head signature format then signed u declared name format mime else later

-- `sniff_format`
unfoldable pub sniff_format :
    Unicode → Text → Option Text → Option Text → DocumentFormat × Option Text
unfolding sniff_signatures
sniff_format u head declared name = sniff_signatures u head declared name magic_signatures
