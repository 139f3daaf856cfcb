-- ===== src/Ingestion/Parser.antt =====
-- app/ingestion/parser.py: the errors of a run, and the loop of `parse_source`. A connector is the
-- items that it yields and the exception, if any, that ends them; what the caller does with an item
-- is an argument, since a generator hands over each item before it asks for the next.
use tenderbase_api.Prelude.{
  if◌then◌else◌, is_some, take, ℕ, zero, suc, Bool, false, ◌||◌, Option, none, some, List, [], ◌∷◌,
}
use tenderbase_api.Prelude.Text.{Text, codes, text_eq, elem, strip_prefix?}
use tenderbase_api.Enums.{ErrorStage}

-- An exception: a `TenderBaseError`, or another one with the name of its class in upper case, its
-- `str` and its attribute `code`, empty where it has none.
pub data Raised : Type 0 where
  tenderbase : (code message : Text) → Bool → Raised
  other : (name message code : Text) → Raised

-- The context of an error is left out.
pub record StageError : Type 0 where
  pub stage : ErrorStage
  pub code : Text
  pub message : Text
  pub url : Option Text
  pub retryable : Bool

-- `from_exception`
unfoldable pub from_exception : Raised → ErrorStage → Option Text → StageError
from_exception (tenderbase code message retryable) stage url = record {
  stage = stage;
  code = code;
  message = take 2000 message;
  url = url;
  retryable = retryable;
}
from_exception (other name message code) stage url = record {
  stage = stage;
  code = name;
  message = take 2000 message;
  url = url;
  retryable = false;
}

-- `as_dict`
abbrev pub as_dict : StageError → StageError
as_dict e = record e { message = take 500 e.message }

abbrev code_of : Raised → Text
code_of (tenderbase code message retryable) = code
code_of (other name message code) = code

abbrev stage_of_code : Text → ErrorStage
stage_of_code code =
    if is_some (strip_prefix? (codes "FETCH") code)
      || elem code
          (codes "ROBOTS_DISALLOWED" ∷ codes "RESPONSE_TOO_LARGE" ∷ codes "UNSAFE_URL" ∷ [])
    then ErrorStage.fetch
    else if text_eq code (codes "PARSE_ERROR")
    then ErrorStage.parse
    else if text_eq code (codes "CONNECTOR_NOT_REGISTERED")
    then ErrorStage.discovery
    else ErrorStage.unknown

-- `_stage_for`
unfoldable pub stage_for : Raised → ErrorStage
stage_for e = stage_of_code (code_of e)

pub record Feed (Item : Type 0) : Type 0 where
  pub items : List Item
  pub ending : Option Raised

abbrev pub max_items_per_run : ℕ
max_items_per_run = 5000

-- The parameter `message` is the text with the number of items.
unfoldable pub too_many : (ℕ → Text) → ℕ → Text → StageError
too_many message max_items base_url = record {
  stage = ErrorStage.parse;
  code = codes "MAX_ITEMS_EXCEEDED";
  message = message max_items;
  url = some base_url;
  retryable = false;
}

-- What `parse_source` is given besides its connector.
pub record Parsing (Item S : Type 0) : Type 0 where
  pub base_url : Text
  pub max_items : ℕ
  pub limit_message : ℕ → Text
  pub on_item : Item → S → S
  pub on_error : StageError → S → S

module _ {Item S : Type 0} (p : Parsing Item S) where
  unfoldable pub parse_end : Option Raised → S → S
  unfolding from_exception stage_for
  parse_end none s = s
  parse_end (some e) s = p.on_error (from_exception e (stage_for e) (some p.base_url)) s

  -- The loop, `left` items short of the limit.
  unfoldable pub parse_items : ℕ → List Item → Option Raised → S → S
  unfolding parse_end too_many
  parse_items left [] ending s = parse_end ending s
  parse_items zero (item ∷ rest) ending s =
      p.on_error (too_many p.limit_message p.max_items p.base_url) s
  parse_items (suc left) (item ∷ rest) ending s = parse_items left rest ending (p.on_item item s)

  -- `parse_source`
  unfoldable pub parse_source : Feed Item → S → S
  unfolding parse_items
  parse_source feed s = parse_items p.max_items feed.items feed.ending s
