-- ===== src/Verifier/Reports.antt =====
-- app/ingestion/verifier.py: when `verify` gives a report, whatever the listing and the pages do.
use tenderbase_api.Prelude.{
  Bool-cases, is_some, Result, ◌>>=◌, ok, ◌≡◌, refl, sym, subst, ◌∙◌, inl, inr, Bool, true, Option,
  none, some, List, [], ◌∷◌, ◌++◌, arith,
}
use tenderbase_api.Urls.{UrlCheck, validate_url}
use tenderbase_api.Verifier.{
  CheckResult, Connector, Context, Crash, Item, Page, Target, Verifier, build, check_url,
  check_connector, is_failed, result, url, url_status,
}
use tenderbase_api.Verifier.Listing.{
  check_parser, discover_targets, kept_or_raised, parsed_rows, usable_items,
}
use tenderbase_api.Verifier.Sampling.{check_detail}
use tenderbase_api.Verifier.Run.{
  VerificationReport, detail_and_documents, optional_checks, read_listing, read_page, read_targets,
  report_of, verify, connector_for,
}

abbrev Answers : {A : Type 0} → Result Crash A → Type 0
Answers {A} r = (a : A) × (r ≡ ok a)

Answers-bind :
    {A B : Type 0} (m : Result Crash A) (f : A → Result Crash B)
    → Answers m
    → ((a : A) → Answers (f a))
    → Answers (m >>= f)
Answers-bind m f (a, e) h = rw e (h a)

kept_or_raised-Answers :
    (o : Option Bool) (item : Item) (rest : Result Crash (List Item))
    → is_some o ≡ true
    → Answers rest
    → Answers (kept_or_raised o item rest)
kept_or_raised-Answers none item rest e h = absurd (ground arith)
kept_or_raised-Answers (some b) item rest e h = Answers-bind rest _ h λ kept. (_, refl)

usable_items-Answers :
    (validate : Item → Option Bool) (items : List Item)
    → ((item : Item) → is_some (validate item) ≡ true)
    → Answers (usable_items validate items)
unfolding usable_items
usable_items-Answers validate [] h = ([], refl)
usable_items-Answers validate (item ∷ items) h =
    kept_or_raised-Answers (validate item) item (usable_items validate items) (h item)
      (usable_items-Answers validate items h)

parsed_rows-Answers :
    (v : Verifier) (c : Connector) (rows : Option (List Item))
    → ((item : Item) → is_some (c.validate item) ≡ true)
    → Answers (parsed_rows v c rows)
parsed_rows-Answers v c none h = (_, refl)
parsed_rows-Answers v c (some rows) h =
    Answers-bind (usable_items c.validate rows) _ (usable_items-Answers c.validate rows h)
      λ usable. (_, refl)

read_page-Answers :
    (v : Verifier) (c : Connector) (before : List CheckResult) (targets : List Target)
    (page : Option Page)
    → ((item : Item) → is_some (c.validate item) ≡ true)
    → Answers (read_page v c before targets page)
unfolding check_parser
read_page-Answers v c before targets none h = (_, refl)
read_page-Answers v c before targets (some page) h =
    Answers-bind (check_parser v c page) _ (parsed_rows-Answers v c (c.parse page) h) λ p. (_, refl)

read_targets-Answers :
    (v : Verifier) (c : Connector) (before : List CheckResult) (targets : List Target)
    → ((item : Item) → is_some (c.validate item) ≡ true)
    → Answers (read_targets v c before targets)
read_targets-Answers v c before [] h = (_, refl)
read_targets-Answers v c before (t ∷ ts) h = read_page-Answers v c before (t ∷ ts) (c.fetch t) h

check_detail-Answers :
    (v : Verifier) (x : Context) (items : List Item) (listed : Option (List Target))
    → is_some listed ≡ true
    → Answers (check_detail v x items listed)
unfolding check_detail
check_detail-Answers v x items none h = absurd (ground arith)
check_detail-Answers v x items (some listed) h = (_, refl)

detail_and_documents-Answers :
    (v : Verifier) (x : Context) (c : Connector) (items : List Item)
    → is_some c.discover_again ≡ true
    → Answers (detail_and_documents v x c items)
detail_and_documents-Answers v x c [] h = (_, refl)
detail_and_documents-Answers v x c (item ∷ items) h =
    Answers-bind (check_detail v x (item ∷ items) c.discover_again) _
      (check_detail-Answers v x (item ∷ items) c.discover_again h) λ check. (_, refl)

-- The run, for no connector or one whose calls outside every `try` do not raise
run-Answers :
    (v : Verifier) (x : Context) (before : List CheckResult) (k : Option Connector)
    → ((c : Connector)
        → k ≡ some c
        → ((item : Item) → is_some (c.validate item) ≡ true) × is_some c.discover_again ≡ true)
    → Answers (
        read_listing v x before k >>= λ f.
        optional_checks v x k f >>= λ more. ok (report_of f more))
run-Answers v x before none h = (_, refl)
run-Answers v x before (some c) h =
    let (valid, again) = h c refl in
    let (targets, check) = discover_targets v x c.discover in
    Answers-bind (read_targets v c (before ++ check ∷ []) targets) _
      (read_targets-Answers v c (before ++ check ∷ []) targets valid)
      λ f.
        Answers-bind (optional_checks v x (some c) f) _
          (Answers-bind (detail_and_documents v x c f.items) _
            (detail_and_documents-Answers v x c f.items again) λ more. (_, refl))
          λ more. (_, refl)

-- The connector that is driven is the one that was built.
connector_for-build :
    (v : Verifier) (x : Context) (c d : Connector) (url_check : CheckResult)
    → build v x ≡ some c
    → connector_for v x url_check ≡ some d
    → c ≡ d
connector_for-build v x c d url_check b h = elim (Bool-cases (is_failed url_check.status)) [
  | inl y ↦ absurd (none_not_some d (rw y at h))
  | inr y ↦ some_inj c d (sym b ∙ (rw y at h))
]
  where
    none_not_some : (d : Connector) → Path (Option Connector) none (some d) → ⊥
    none_not_some d e = absurd (ground (arith, e))

    some_inj : (c d : Connector) → Path (Option Connector) (some c) (some d) → c ≡ d
    some_inj c d e = ground (arith, e)

-- `verify` gives a report, whatever its connector's `discover`, `fetch` and `parse` raise, where the URL
-- can be read, where the connector's `validate` does not raise, and where its `discover` does not raise
-- the second time that it is called.
pub verify-answers :
    (v : Verifier) (x : Context) (c : Connector) (k : UrlCheck)
    → build v x ≡ some c
    → validate_url v.lib v.allow_private_networks true v.allowed_ports x.base_url ≡ ok k
    → ((item : Item) → is_some (c.validate item) ≡ true)
    → is_some c.discover_again ≡ true
    → (r : VerificationReport) × (verify v x ≡ ok r)
unfolding verify check_url
verify-answers v x c k b u valid again =
    Answers-bind (check_url v x) _ (result url (url_status k), rw u refl)
      λ url_check.
        run-Answers v x (check_connector v x ∷ url_check ∷ []) (connector_for v x url_check) λ d q.
          subst
            (λ d.
              ((item : Item) → is_some (d.validate item) ≡ true) × is_some d.discover_again ≡ true)
            (connector_for-build v x c d url_check b q) (valid, again)
