-- ===== src/Ingestion/Validator/Consistency.antt =====
-- app/ingestion/validator.py: what a VALID record guarantees.
use tenderbase_api.Prelude.{
  ltb, if◌then◌else◌, Bool-cases, le_of_not_ltb, take, any, all, any-append, ℕ, ◌+◌, ◌*◌, ◌≤◌, ◌≡◌,
  refl, sym, ap, subst, ◌∙◌, inl, inr, Bool, true, false, ◌||◌, Option, some, List, [], ◌∷◌, ◌++◌,
  arith,
}
use tenderbase_api.Prelude.Text.{Text, codes, contains}
use tenderbase_api.Enums.{valid}
use tenderbase_api.Ingestion.Record.{Field, Record}
use tenderbase_api.Ingestion.Versioning.{not_empty}
use tenderbase_api.Ingestion.Validator.{
  Key, Checks, Issue, issue_if, text_of, moment_of, hard_issues, soft_issues, completeness,
  is_suspicious, classify, validate, date_issues, day, opt_moment, both_moments, document_issues,
  submission_issues, open_issues, value_issues,
}

or-false : (a b : Bool) → (a || b) ≡ false → (a ≡ false) × (b ≡ false)
or-false false b e = (refl, e)
or-false true b e = absurd (ground arith)

classify-valid :
    (h : Bool) (is : List Issue) (n : ℕ)
    → classify h is n ≡ valid
    → (any is_suspicious is ≡ false) × (70 ≤ n)
unfolding classify
classify-valid true is n e = absurd (ground arith)
classify-valid false is n e = elim (Bool-cases (any is_suspicious is)) [
  | inl y ↦ absurd (ground arith)
  | inr y ↦ (y, ground arith)
]

-- One suspicious message and what follows it.
clean_head :
    (b : Bool) (k : Key) (m : Text) (is : List Issue)
    → is_suspicious (k, m) ≡ true
    → any is_suspicious (issue_if b k m ++ is) ≡ false
    → (b ≡ false) × (any is_suspicious is ≡ false)
clean_head true k m is s e = absurd (ground (arith, s, e))
clean_head false k m is s e = (refl, e)

clean_alone :
    (b : Bool) (k : Key) (m : Text)
    → is_suspicious (k, m) ≡ true
    → any is_suspicious (issue_if b k m) ≡ false
    → b ≡ false
clean_alone true k m s e = absurd (ground (arith, s, e))
clean_alone false k m s e = refl

-- Any message and what follows it.
clean_rest :
    (xs is : List Issue)
    → any is_suspicious (xs ++ is) ≡ false
    → (any is_suspicious xs ≡ false) × (any is_suspicious is ≡ false)
clean_rest xs is e =
    or-false (any is_suspicious xs) (any is_suspicious is)
      (sym (any-append is_suspicious xs is) ∙ e)

abbrev pub IsConsistent : Checks → Record → Type 0
IsConsistent c r =
    ((p : ℕ) → moment_of (r.fields Field.published_at) ≡ some p → p ≤ c.now + 2 * day)
    × ((p q : ℕ)
        → moment_of (r.fields Field.published_at) ≡ some p
        → moment_of (r.fields Field.closing_at) ≡ some q
        → p ≤ q + day)
    × (all c.is_http_url r.documents ≡ true)

date_issues-clean :
    (now : ℕ) (published closing : Option ℕ)
    → any is_suspicious (date_issues now published closing) ≡ false
    → ((p : ℕ) → published ≡ some p → p ≤ now + 2 * day)
      × ((p q : ℕ) → published ≡ some p → closing ≡ some q → p ≤ q + day)
unfolding date_issues is_suspicious
date_issues-clean now published closing e =
    let early = opt_moment (λ m. ltb (now + 2 * day) m) published in
    let old = opt_moment (λ m. ltb (m + 365 * 25 * day) now) published in
    let far = opt_moment (λ m. ltb (now + 365 * 10 * day) m) closing in
    let crossed = both_moments (λ p q. ltb (q + day) p) published closing in
    let crossed_issue =
      issue_if crossed Key.closing_at (codes "closing date precedes the publication date") in
    let far_issue =
      issue_if far Key.closing_at (codes "closing date is implausibly far in the future") in
    let old_issue = issue_if old Key.published_at (codes "publication date is implausibly old") in
    let s1 =
      clean_head early Key.published_at (codes "publication date is in the future")
        (old_issue ++ (far_issue ++ crossed_issue)) refl e in
    let s2 = clean_rest old_issue (far_issue ++ crossed_issue) s1.1 in
    let s3 = clean_rest far_issue crossed_issue s2.1 in
    (
      (λ p hp.
          le_of_not_ltb (now + 2 * day) p
            (ap (opt_moment (λ m. ltb (now + 2 * day) m)) (sym hp) ∙ s1.0)),
      (λ p q hp hq. le_of_not_ltb (q + day) p (
          ap (λ x. both_moments (λ a b. ltb (b + day) a) (some p) x) (sym hq)
          ∙ (ap (λ x. both_moments (λ a b. ltb (b + day) a) x closing) (sym hp)
              ∙ clean_alone crossed Key.closing_at
                  (codes "closing date precedes the publication date") refl s3.1))),
    )

last_true : (a b c d : Bool) → (a || b || c || d || true) ≡ true
last_true a b c d = ground arith

invalid_document :
    (m : Text) → is_suspicious (Key.documents, codes "invalid document URL: " ++ m) ≡ true
unfolding is_suspicious
invalid_document m =
    last_true (contains (codes "future") (codes "invalid document URL: " ++ m))
      (contains (codes "precedes") (codes "invalid document URL: " ++ m))
      (contains (codes "implausibly") (codes "invalid document URL: " ++ m))
      (contains (codes "negative") (codes "invalid document URL: " ++ m))

abbrev head_or : Text → List Issue → Bool → List Issue
head_or d rest b =
    if b then rest else (Key.documents, codes "invalid document URL: " ++ take 120 d) ∷ []

document_issues-clean :
    (c : Checks) (ds : List Text)
    → any is_suspicious (document_issues c ds) ≡ false
    → all c.is_http_url ds ≡ true
unfolding document_issues
document_issues-clean c [] e = refl
document_issues-clean c (d ∷ ds) e =
    let rest = document_issues-clean c ds in
    elim (Bool-cases (c.is_http_url d)) [
      | inl y ↦
          rw y
            (rest (subst (λ b. any is_suspicious (head_or d (document_issues c ds) b) ≡ false) y e))
      | inr y ↦ absurd (
          ground (
            arith,
            invalid_document (take 120 d),
            subst (λ b. any is_suspicious (head_or d (document_issues c ds) b) ≡ false) y e,
          ))
    ]

soft_issues-clean :
    (c : Checks) (r : Record) → any is_suspicious (soft_issues c r) ≡ false → IsConsistent c r
unfolding soft_issues
soft_issues-clean c r e =
    let submission = submission_issues c (text_of (r.fields Field.submission_url)) in
    let published = moment_of (r.fields Field.published_at) in
    let closing = moment_of (r.fields Field.closing_at) in
    let last = document_issues c r.documents ++ open_issues r in
    let s1 =
      clean_rest (date_issues c.now published closing) (value_issues r ++ (submission ++ last)) e in
    let s2 = clean_rest (value_issues r) (submission ++ last) s1.1 in
    let s3 = clean_rest submission last s2.1 in
    let s4 = clean_rest (document_issues c r.documents) (open_issues r) s3.1 in
    let d = date_issues-clean c.now published closing s1.0 in
    (d.0, d.1, document_issues-clean c r.documents s4.0)

-- A record of quality VALID has a completeness of at least 0.7, and all its documents are http(s)
-- URLs; where its publication date is known it is at most two days in the future, and where both
-- dates are known it closes at most a day before it is published.
pub validate-valid :
    (c : Checks) (r : Record)
    → (validate c r).quality ≡ valid
    → IsConsistent c r × (70 ≤ completeness r)
unfolding validate
validate-valid c r e =
    let s =
      classify-valid (not_empty (hard_issues c r)) (hard_issues c r ++ soft_issues c r)
        (completeness r) e in
    (soft_issues-clean c r (clean_rest (hard_issues c r) (soft_issues c r) s.0).1, s.1)
