-- ===== src/Verifier/Sampling.antt =====
-- app/ingestion/verifier.py: the optional checks: robots, detail pages, documents and pagination.
use tenderbase_api.Prelude.{
  ltb, leb, ◌==◌, if◌then◌else◌, length, any, keep, Result, ok, err, ℕ, suc, Bool, true, false, not,
  ◌&&◌, Option, none, some, List, [], ◌∷◌, ◌++◌, map,
}
use tenderbase_api.Prelude.Text.{Text, codes, text_eq, is_empty, elem}
use tenderbase_api.Verifier.{
  CheckResult, CheckStatus, Context, Crash, Item, Page, Target, Verifier, check_failed,
  check_passed, check_skipped, check_warning, detail, discover_raises, documents, pagination,
  result, robots, sample_items,
}
use tenderbase_api.Verifier.Listing.{same_host}

-- `_check_robots`
unfoldable pub check_robots : Verifier → Context → CheckResult
check_robots v x = result robots (
    if text_eq (v.lib.unicode.upper x.robots_policy) (codes "IGNORE")
    then check_warning
    else check_passed)

abbrev is_candidate : Verifier → Context → List Target → Text → Bool
is_candidate v x listed link =
    not (is_empty link)
    && not (any (λ t. text_eq t.url link) listed)
    && same_host v.lib link x.base_url

abbrev candidate_of : Verifier → Context → List Target → Option Text → List Text
candidate_of v x listed none = []
candidate_of v x listed (some link) = if is_candidate v x listed link then link ∷ [] else []

-- The loop over the items: the test of its length comes after each item.
unfoldable pub candidates : Verifier → Context → List Target → List Text → List Item → List Text
candidates v x listed found [] = found
candidates v x listed found (item ∷ items) =
    let now = found ++ candidate_of v x listed item.source_url in
    let rest = candidates v x listed now items in
    if leb (sample_items v) (length now) then now else rest

abbrev is_fetched : Option Page → Bool
is_fetched none = false
is_fetched (some page) = true

-- `200 <= status < 400 and size > 0`
abbrev is_readable : Option Page → Bool
is_readable none = false
is_readable (some page) = leb 200 page.status_code && ltb page.status_code 400 && ltb 0 page.size

abbrev detail_status : ℕ → ℕ → CheckStatus
detail_status fetched readable =
    if readable == 0
    then check_failed
    else if readable == fetched
    then check_passed
    else check_warning

abbrev sampled : Verifier → List Text → CheckStatus
sampled v [] = check_skipped
sampled v (link ∷ urls) =
    detail_status (length (keep is_fetched (map v.fetch_detail (link ∷ urls))))
      (length (keep is_readable (map v.fetch_detail (link ∷ urls))))

-- `_check_detail`, on what the second `discover` gives
unfoldable pub check_detail :
    Verifier → Context → List Item → Option (List Target) → Result Crash CheckResult
unfolding candidates
check_detail v x items none = err discover_raises
check_detail v x items (some listed) =
    ok (result detail (sampled v (candidates v x listed [] items)))

-- `_check_documents`
unfoldable pub check_documents : List Item → CheckResult
check_documents items = result documents (
    if any (λ item. any (λ link. not (is_empty link)) item.documents) items
    then check_passed
    else check_warning)

-- `len(set(urls))`
unfoldable pub distinct : List Text → ℕ
distinct [] = 0
distinct (link ∷ urls) = if elem link urls then distinct urls else suc (distinct urls)

-- `_check_pagination`
unfoldable pub check_pagination : Context → List Target → CheckResult
unfolding distinct
check_pagination x targets = result pagination (
    if ltb 1 (distinct (map (λ t. t.url) targets))
    then check_passed
    else if x.declares_pagination
    then check_warning
    else check_skipped)
