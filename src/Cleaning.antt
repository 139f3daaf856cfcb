-- ===== src/Cleaning.antt =====
-- app/utils/text.py: `clean_text`, through which every text of a tender goes. The compatibility form
-- of Unicode (`unicodedata.normalize`) is a parameter.
pub mod Steps
pub mod Edges
pub mod Clean
use tenderbase_api.Prelude.{
  ltb, leb, ◌==◌, if◌then◌else◌, length, take, keep, ℕ, ◌+◌, Bool, false, not, ◌&&◌, ◌||◌, Option,
  none, some, List, [], ◌∷◌, ◌++◌, map,
}
use tenderbase_api.Prelude.Text.{Text, Unicode, is_empty, rstrip_by, strip_by, split_on}

-- `_CONTROL_RE`
abbrev pub is_control : ℕ → Bool
is_control c = leb c 8 || c == 11 || c == 12 || (leb 14 c && leb c 31) || c == 127

-- `_WS_RE`
abbrev pub is_blank : ℕ → Bool
is_blank c = c == 32 || c == 9 || c == 160

abbrev pub starts_line : Text → Bool
starts_line [] = false
starts_line (c ∷ s) = c == 10

-- `text.replace("\r\n", "\n")`
abbrev pub join_returns : Text → Text
join_returns [] = []
join_returns (c ∷ s) =
    let rest = join_returns s in if c == 13 && starts_line s then rest else c ∷ rest

-- `text.replace("\r", "\n")`
abbrev pub line_feed : ℕ → ℕ
line_feed c = if c == 13 then 10 else c

-- `_WS_RE.sub(" ", line)`, after the character `last`
abbrev pub squeeze : ℕ → Text → Text
squeeze last [] = []
squeeze last (c ∷ s) =
    let rest = squeeze c s in
    if is_blank c then (if is_blank last then rest else 32 ∷ rest) else c ∷ rest

-- `"\n".join(lines)`
abbrev pub join_lines : List Text → Text
join_lines [] = []
join_lines (s ∷ []) = s
join_lines (s ∷ t ∷ ss) = s ++ 10 ∷ join_lines (t ∷ ss)

-- `_MULTI_NEWLINE_RE.sub("\n\n", text)`, after `n` newlines
abbrev pub cap_lines : ℕ → Text → Text
cap_lines n [] = []
cap_lines n (c ∷ s) =
    let rest = cap_lines (if c == 10 then n + 1 else 0) s in
    if c == 10 && leb 2 n then rest else c ∷ rest

abbrev pub tidy_line : Unicode → Text → Text
tidy_line u line = strip_by u.is_space (squeeze 10 line)

-- The text with its control characters removed and its white space collapsed
unfoldable pub tidy : Unicode → (Text → Text) → Text → Text
tidy u nfkc value =
    let printable = keep (λ c. not (is_control c)) (nfkc value) in
    let lines = split_on 10 (map line_feed (join_returns printable)) in
    strip_by u.is_space (cap_lines 0 (join_lines (map (tidy_line u) lines)))

-- What `max_length` leaves
unfoldable pub cut : Unicode → Option ℕ → Text → Text
cut u none t = t
cut u (some n) t = if ltb n (length t) then rstrip_by u.is_space (take n t) else t

-- `clean_text`
unfoldable pub clean_text : Unicode → (Text → Text) → Option ℕ → Option Text → Option Text
clean_text u nfkc max_length none = none
clean_text u nfkc max_length (some value) =
    if is_empty (tidy u nfkc value) then none else some (cut u max_length (tidy u nfkc value))
