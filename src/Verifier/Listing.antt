-- ===== src/Verifier/Listing.antt =====
-- app/ingestion/verifier.py: the checks of the listing: its targets, its access, its rows and the
-- records that they make.
use tenderbase_api.Prelude.{
  leb, ◌==◌, if◌then◌else◌, length, take, any, keep, Result, ◌>>=◌, ok, err, ℕ, Bool, false, not,
  ◌||◌, Option, none, some, List, [], ◌∷◌,
}
use tenderbase_api.Prelude.Text.{Text, text_eq}
use tenderbase_api.Urls.{Parts, UrlError, UrlLib}
use tenderbase_api.Ingestion.Record.{Record}
use tenderbase_api.Ingestion.Validator.{Checks, is_persistable, validate}
use tenderbase_api.Verifier.{
  CheckResult, CheckStatus, Connector, Context, Crash, Item, Page, Target, Verifier, access,
  check_failed, check_passed, check_warning, listing, parse, parser, result, sample_items,
  validate_raises,
}

abbrev netloc_of : UrlLib → Result UrlError Parts → Option Text
netloc_of lib (ok p) = some (lib.unicode.lower p.netloc)
netloc_of lib (err e) = none

abbrev same_text : Option Text → Option Text → Bool
same_text (some a) (some b) = text_eq a b
same_text _ _ = false

-- `_same_host`
abbrev pub same_host : UrlLib → Text → Text → Bool
same_host lib a b = same_text (netloc_of lib (lib.urlsplit a)) (netloc_of lib (lib.urlsplit b))

-- `_check_targets`
unfoldable pub check_targets : Verifier → Context → List Target → CheckResult
check_targets v x targets = result listing (
    if any (λ t. not (same_host v.lib t.url x.base_url)) targets
    then check_warning
    else check_passed)

-- `_discover` and the check of its targets
unfoldable pub discover_targets :
    Verifier → Context → Option (List Target) → List Target × CheckResult
unfolding check_targets
discover_targets v x none = ([], result listing check_failed)
discover_targets v x (some []) = ([], result listing check_failed)
discover_targets v x (some (t ∷ ts)) = (t ∷ ts, check_targets v x (t ∷ ts))

abbrev pub page_status : Page → CheckStatus
page_status page =
    if page.status_code == 401 || page.status_code == 403
    then check_failed
    else if page.status_code == 404
    then check_failed
    else if leb 400 page.status_code
    then check_warning
    else if page.size == 0
    then check_failed
    else check_passed

-- `_check_access`, on what the connector's `fetch` gives
unfoldable pub check_access : Option Page → CheckResult
check_access none = result access check_failed
check_access (some page) = result access (page_status page)

abbrev pub kept_or_raised : Option Bool → Item → Result Crash (List Item) → Result Crash (List Item)
kept_or_raised none item rest = err validate_raises
kept_or_raised (some b) item rest = rest >>= λ kept. ok (if b then item ∷ kept else kept)

-- `[item for item in items if await connector.validate(context, item)]`
unfoldable pub usable_items : (Item → Option Bool) → List Item → Result Crash (List Item)
usable_items validate [] = ok []
usable_items validate (item ∷ items) =
    kept_or_raised (validate item) item (usable_items validate items)

abbrev pub is_accepted : Checks → Option Record → Bool
is_accepted checks none = false
is_accepted checks (some r) = is_persistable (validate checks r).quality

-- The number of sampled items that normalize and validate.
unfoldable pub accepted : Verifier → List Item → ℕ
unfolding validate
accepted v items =
    length (keep (λ item. is_accepted v.checks (v.normalize item)) (take (sample_items v) items))

abbrev pub parser_result : Verifier → List Item → CheckResult
parser_result v usable =
    result parser (if accepted v usable == 0 then check_failed else check_passed)

-- What `_check_parser` appends and gives back, from the usable items on
abbrev pub parsed : Verifier → List Item → List CheckResult × List Item
parsed v [] = (result parse check_failed ∷ [], [])
parsed v (item ∷ items) =
    (result parse check_passed ∷ parser_result v (item ∷ items) ∷ [], item ∷ items)

abbrev pub parsed_rows :
    Verifier → Connector → Option (List Item) → Result Crash (List CheckResult × List Item)
parsed_rows v c none = ok (result parse check_failed ∷ [], [])
parsed_rows v c (some rows) = usable_items c.validate rows >>= λ usable. ok (parsed v usable)

-- `_check_parser`
unfoldable pub check_parser :
    Verifier → Connector → Page → Result Crash (List CheckResult × List Item)
unfolding usable_items accepted
check_parser v c page = parsed_rows v c (c.parse page)
