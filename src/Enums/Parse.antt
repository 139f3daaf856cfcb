-- ===== src/Enums/Parse.antt =====
-- app/enums.py: `_Extensible.parse`, the tolerant reading of a member, for the two enumerations that
-- the modelled code parses from text.
use tenderbase_api.Prelude.{
  ◌==◌, if◌then◌else◌, ℕ, ◌≡◌, false, ◌||◌, Option, none, some, List, [], ◌∷◌, map,
}
use tenderbase_api.Prelude.Text.{Text, Unicode, codes, text_eq, strip_by}
use tenderbase_api.Enums.{
  OpportunityStatus, open_, closed, cancelled, awarded, extended, suspended, unknown,
}

-- `str(value).strip().upper().replace("-", "_").replace(" ", "_")`
abbrev underscored : ℕ → ℕ
underscored c = if c == b'-' || c == b' ' then b'_' else c

unfoldable pub canonical : Unicode → Text → Text
canonical u t = map underscored (u.upper (strip_by u.is_space t))

module _ {A : Type 0} where
  -- The first member with this value.
  unfoldable pub member_or : A → Text → List (Text × A) → A
  member_or fallback t [] = fallback
  member_or fallback t ((k, m) ∷ ms) = if text_eq k t then m else member_or fallback t ms

  unfoldable pub parse : Unicode → List (Text × A) → A → Option Text → A
  unfolding canonical member_or
  parse u members fallback none = fallback
  parse u members fallback (some t) = member_or fallback (canonical u t) members

  -- No value stands twice among the members.
  abbrev pub IsFresh : Text → List (Text × A) → Type 0
  IsFresh t [] = Unit
  IsFresh t (e ∷ ms) = (text_eq t e.0 ≡ false) × IsFresh t ms

  abbrev pub IsDistinct : List (Text × A) → Type 0
  IsDistinct [] = Unit
  IsDistinct (e ∷ ms) = IsFresh e.0 ms × IsDistinct ms

abbrev pub opportunity_statuses : List (Text × OpportunityStatus)
opportunity_statuses =
    (codes "OPEN", open_)
    ∷ (codes "CLOSED", closed)
    ∷ (codes "CANCELLED", cancelled)
    ∷ (codes "AWARDED", awarded)
    ∷ (codes "EXTENDED", extended)
    ∷ (codes "SUSPENDED", suspended)
    ∷ (codes "UNKNOWN", unknown)
    ∷ []

-- `OpportunityStatus.parse`
unfoldable pub parse_status : Unicode → Option Text → OpportunityStatus
unfolding parse
parse_status u = parse u opportunity_statuses unknown
