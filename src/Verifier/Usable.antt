-- ===== src/Verifier/Usable.antt =====
-- app/ingestion/verifier.py: a source that passes has been fetched, parsed and normalized.
use tenderbase_api.Prelude.{
  ◌==◌, Bool-cases, length, any, any-append, Result, ◌>>=◌, Gives, Gives-bind, Gives-then,
  Gives-result, ok, err, ℕ, ◌≤◌, ◌<◌, ◌≡◌, refl, sym, subst, ◌∙◌, ◌≢◌, ◌⊎◌, inl, inr, Bool, true,
  false, ◌||◌, Option, none, some, List, [], ◌∷◌, ◌++◌, arith,
}
use tenderbase_api.Source.Lifecycle.{passes}
use tenderbase_api.Urls.{UrlCheck, UrlError, validate_url}
use tenderbase_api.Verifier.{
  CheckResult, Connector, Item, Page, Target, Verifier, blocking, is_failed, Context, build,
  check_failed, listing, result, CheckStatus, Crash, access, check_connector, check_url,
  is_required, url_result,
}
use tenderbase_api.Verifier.Listing.{
  accepted, page_status, parsed, parsed_rows, usable_items, check_access, check_parser,
  discover_targets,
}
use tenderbase_api.Verifier.Sampling.{check_robots}
use tenderbase_api.Verifier.Run.{
  verdict, Found, VerificationReport, read_page, read_targets, verify, connector_for,
  optional_checks, read_listing, report_of,
}

-- No check of the list blocks.
abbrev IsClear : List CheckResult → Type 0
IsClear checks = any blocking checks ≡ false

IsClear-append : (xs ys : List CheckResult) → IsClear (xs ++ ys) → IsClear xs × IsClear ys
IsClear-append xs ys h =
    split (any blocking xs) (any blocking ys) (sym (any-append blocking xs ys) ∙ h)
  where
    split : (a b : Bool) → (a || b) ≡ false → (a ≡ false) × (b ≡ false)
    split a b h = (ground arith, ground arith)

passes-verdict : (checks : List CheckResult) → passes (verdict checks) ≡ true → IsClear checks
unfolding verdict
passes-verdict checks h = elim (Bool-cases (any blocking checks)) [
  | inl y ↦ absurd (ground (arith, (rw y at h)))
  | inr y ↦ y
]

-- What the rows of a page came to: usable items, one at least of which normalizes and validates.
abbrev pub IsParsed : Verifier → Connector → Page → List Item → Type 0
IsParsed v c page items =
    (rows : List Item) × (c.parse page ≡ some rows)
    × (usable_items c.validate rows ≡ ok items)
    × 1 ≤ length items
    × 1 ≤ accepted v items

parsed-IsParsed :
    (v : Verifier) (usable : List Item)
    → IsClear (parsed v usable).0
    → (parsed v usable).1 ≡ usable × 1 ≤ length usable × 1 ≤ accepted v usable
parsed-IsParsed v [] h = absurd (ground arith)
parsed-IsParsed v (item ∷ items) h = elim (Bool-cases (accepted v (item ∷ items) == 0)) [
  | inl y ↦ absurd (ground (arith, (rw y at h)))
  | inr y ↦ (refl, omega arith, positive (accepted v (item ∷ items)) y)
]
  where
    positive : (n : ℕ) → (n == 0) ≡ false → 1 ≤ n
    positive n h = ground arith

check_parser-IsParsed :
    (v : Verifier) (c : Connector) (page : Page) (rows : Option (List Item))
    → c.parse page ≡ rows
    → Gives (λ (more, items). IsClear more → IsParsed v c page items) (parsed_rows v c rows)
check_parser-IsParsed v c page none e = λ h. absurd (ground arith)
check_parser-IsParsed v c page (some rows) e =
    Gives-bind _ (usable_items c.validate rows) _ λ usable u h.
      let (a, b, d) = parsed-IsParsed v usable h in
      subst (λ items. IsParsed v c page items) (sym a) (rows, e, u, b, d)

-- The page came with a success and is not empty, or came with another error than 401, 403 and 404, which
-- is only a warning.
abbrev pub IsReadable : Page → Type 0
IsReadable page =
    (page.status_code < 400 × 1 ≤ page.size)
    ⊎ (400 ≤ page.status_code
        × page.status_code ≢ 401
        × page.status_code ≢ 403
        × page.status_code ≢ 404)

page_status-IsReadable : (page : Page) → is_failed (page_status page) ≡ false → IsReadable page
page_status-IsReadable page h = ground (arith, h)

-- What was found where no check blocks.
abbrev pub HasEvidence : Verifier → Connector → List Item → Option ℕ → Type 0
HasEvidence v c items http_status =
    (t : Target) × (ts : List Target) × (page : Page) × (c.discover ≡ some (t ∷ ts))
    × (c.fetch t ≡ some page)
    × IsReadable page
    × http_status ≡ some page.status_code
    × IsParsed v c page items

abbrev Evidence : Verifier → Connector → Found → Type 0
Evidence v c f = IsClear f.checks → HasEvidence v c f.items f.http_status

access_clear : (s : CheckStatus) → IsClear (result access s ∷ []) → is_failed s ≡ false
access_clear s h = ground (arith, h)

read_page-Evidence :
    (v : Verifier) (c : Connector) (before : List CheckResult) (t : Target) (ts : List Target)
    (page : Option Page)
    → c.discover ≡ some (t ∷ ts)
    → c.fetch t ≡ page
    → Gives (Evidence v c) (read_page v c before (t ∷ ts) page)
unfolding check_access check_parser
read_page-Evidence v c before t ts none d e =
    λ h. absurd (ground (arith, (IsClear-append before (check_access none ∷ []) h).1))
read_page-Evidence v c before t ts (some page) d e =
    Gives-then (λ p. IsClear p.0 → IsParsed v c page p.1) (Evidence v c) (check_parser v c page) _
      (check_parser-IsParsed v c page (c.parse page) refl)
      λ p parsed h.
        let k = IsClear-append before (check_access (some page) ∷ p.0) h in
        let (a, b) = IsClear-append (check_access (some page) ∷ []) p.0 k.1 in
        (
          t,
          ts,
          page,
          d,
          e,
          page_status-IsReadable page (access_clear (page_status page) a),
          refl,
          parsed b,
        )

read_listing-Evidence :
    (v : Verifier) (x : Context) (before : List CheckResult) (c : Connector)
    (targets : Option (List Target))
    → c.discover ≡ targets
    → Gives (Evidence v c) (
        read_targets v c
          (before ++ (discover_targets v x targets).1 ∷ [])
          (discover_targets v x targets).0)
unfolding discover_targets
read_listing-Evidence v x before c none d =
    λ h. absurd (ground (arith, (IsClear-append before (result listing check_failed ∷ []) h).1))
read_listing-Evidence v x before c (some []) d =
    λ h. absurd (ground (arith, (IsClear-append before (result listing check_failed ∷ []) h).1))
read_listing-Evidence v x before c (some (t ∷ ts)) d =
    read_page-Evidence v c _ t ts (c.fetch t) d refl

-- What a report shows, where its verdict passes.
abbrev Shown : Verifier → Connector → VerificationReport → Type 0
Shown v c r =
    passes r.status ≡ true
    → (items : List Item) × r.items_discovered ≡ length items × HasEvidence v c items r.http_status

report_of-Shown :
    (v : Verifier) (c : Connector) (f : Found) (more : List CheckResult)
    → Evidence v c f
    → Shown v c (report_of f more)
report_of-Shown v c f more h p =
    (f.items, refl, h (IsClear-append f.checks more (passes-verdict (f.checks ++ more) p)).0)

-- The run from the listing on, for the connector that it drives
abbrev rest_of :
    Verifier → Context → List CheckResult → Option Connector → Result Crash VerificationReport
rest_of v x before k =
    read_listing v x before k >>= λ f. optional_checks v x k f >>= λ more. ok (report_of f more)

rest_of-refused :
    (v : Verifier) (x : Context) (c : Connector) (head url_check : CheckResult)
    → blocking url_check ≡ true
    → Gives (Shown v c) (rest_of v x (head ∷ url_check ∷ []) none)
rest_of-refused v x c head url_check b p =
    let before = head ∷ url_check ∷ [] in
    let clear =
      (IsClear-append before (check_robots v x ∷ [])
        (passes-verdict (before ++ check_robots v x ∷ []) p)).0 in
    absurd (refused (blocking head) (blocking url_check) b clear)
  where
    refused : (a b : Bool) → b ≡ true → (a || (b || false)) ≡ false → ⊥
    refused a b h k = absurd (ground arith)

rest_of-built :
    (v : Verifier) (x : Context) (c : Connector) (before : List CheckResult)
    → Gives (Shown v c) (rest_of v x before (some c))
rest_of-built v x c before =
    Gives-then (Evidence v c) (Shown v c) (read_listing v x before (some c)) _
      (read_listing-Evidence v x before c c.discover refl)
      λ f h.
        Gives-bind (Shown v c) (optional_checks v x (some c) f) _
          λ more _. report_of-Shown v c f more h

connector_for-Shown :
    (v : Verifier) (x : Context) (c : Connector) (head url_check : CheckResult)
    → build v x ≡ some c
    → is_required url_check.name ≡ true
    → Gives (Shown v c) (rest_of v x (head ∷ url_check ∷ []) (connector_for v x url_check))
connector_for-Shown v x c head url_check b n = elim (Bool-cases (is_failed url_check.status)) [
  | inl y ↦ rw y (rest_of-refused v x c head url_check (rw (n, y) refl))
  | inr y ↦ rw (y, b) (rest_of-built v x c (head ∷ url_check ∷ []))
]

check_url-required :
    (v : Verifier) (x : Context) → Gives (λ c. is_required c.name ≡ true) (check_url v x)
unfolding check_url
check_url-required v x =
    go (validate_url v.lib v.allow_private_networks true v.allowed_ports x.base_url)
  where
    go : (r : Result UrlError UrlCheck) → Gives (λ c. is_required c.name ≡ true) (url_result r)
    go (ok c) = refl
    go (err e) = tt

-- A source that passes verification, and whose connector can be built, has evidence of being usable: the
-- connector discovered a listing page; the page was fetched, with a status below 400 and a body that is
-- not empty, or with an error status other than 401, 403 and 404; it was parsed; and among its usable
-- items, whose number is reported, one of those sampled normalizes and validates.
pub verify-HasEvidence :
    (v : Verifier) (x : Context) (c : Connector) (r : VerificationReport)
    → build v x ≡ some c
    → verify v x ≡ ok r
    → passes r.status ≡ true
    → (items : List Item) × r.items_discovered ≡ length items × HasEvidence v c items r.http_status
unfolding verify
verify-HasEvidence v x c r b e p =
    let shown =
      Gives-then (λ c. is_required c.name ≡ true) (Shown v c) (check_url v x) _
        (check_url-required v x)
        λ url_check n. connector_for-Shown v x c (check_connector v x) url_check b n in
    Gives-result (Shown v c) (verify v x) r shown e p
