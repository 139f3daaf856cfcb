-- ===== src/Ingestion/Reference.antt =====
-- app/utils/text.py: `normalize_reference_number`, the comparison key of a tender reference. The
-- compatibility form of Unicode (`unicodedata.normalize`) is a parameter.
use tenderbase_api.Prelude.{
  leb, ◌==◌, if◌then◌else◌, keep, ℕ, Bool, not, ◌&&◌, ◌||◌, Option, none, some, [], ◌∷◌,
}
use tenderbase_api.Prelude.Text.{Text, Unicode, strip_by}

abbrev pub is_separator : ℕ → Bool
is_separator c = c == b'/' || c == b'-'

-- What `_REFERENCE_CLEAN_RE` leaves.
abbrev pub is_reference_char : ℕ → Bool
is_reference_char c = (leb b'A' c && leb c b'Z') || (leb b'0' c && leb c b'9') || is_separator c

-- The separators that wait: none, one, or more, which become one `/`.
pub data Pending : Type 0 where
  nothing : Pending
  one : ℕ → Pending
  many : Pending

add_separator : ℕ → Pending → Pending
add_separator c nothing = one c
add_separator c (one _) = many
add_separator c many = many

flush : Pending → Text → Text
flush nothing s = s
flush (one c) s = c ∷ s
flush many s = b'/' ∷ s

-- `re.sub(r"[/\-]{2,}", "/", text)`
collapse : Pending → Text → Text
unfolding add_separator flush
collapse p [] = flush p []
collapse p (c ∷ s) =
    let longer = collapse (add_separator c p) s in
    let plain = collapse nothing s in if is_separator c then longer else flush p (c ∷ plain)

abbrev text_or_none : Text → Option Text
text_or_none [] = none
text_or_none (c ∷ s) = some (c ∷ s)

unfoldable pub normalize_reference_number : Unicode → (Text → Text) → Option Text → Option Text
unfolding collapse
normalize_reference_number u nfkc none = none
normalize_reference_number u nfkc (some []) = none
normalize_reference_number u nfkc (some (c ∷ s)) =
    let upper = strip_by u.is_space (u.upper (nfkc (c ∷ s))) in
    let clean = keep is_reference_char (keep (λ d. not (u.is_space d)) upper) in
    text_or_none (strip_by is_separator (collapse nothing clean))
