-- ===== src/Ingestion/Validator.antt =====
-- app/ingestion/validator.py: the quality of a normalized record. Weights are in hundredths. The
-- messages of one key are searched one by one: joining them by a space makes no new word. Whether a
-- text is an http(s) URL is a parameter, since `urlparse` decides it.
pub mod Quality
pub mod Consistency
pub mod Submission
use tenderbase_api.Prelude.{
  ltb, leb, if◌then◌else◌, is_some, length, take, any, ℕ, ◌+◌, ◌*◌, Bool, true, false, not, ◌&&◌,
  ◌||◌, Option, none, some, List, [], ◌∷◌, ◌++◌,
}
use tenderbase_api.Prelude.Text.{Text, codes, text_eq, is_empty, strip_by, contains}
use tenderbase_api.Enums.{DataQuality, valid, incomplete, needs_review, invalid}
use tenderbase_api.Ingestion.Record.{Field, Value, text, moment, decimal, Record}
use tenderbase_api.Ingestion.Versioning.{not_empty}

-- The keys of `result.issues`.
pub data Key : Type 0 where
  title source_url published_at closing_at estimated_value currency submission_url : Key
  documents procurement_type status reference_number : Key

abbrev pub Issue : Type 0
Issue = Key × Text

pub record Checks : Type 0 where
  pub is_space : ℕ → Bool
  pub is_http_url : Text → Bool
  pub now : ℕ

abbrev pub day : ℕ
day = 24 * 3600 * 1000000

abbrev pub issue_if : Bool → Key → Text → List Issue
issue_if true k m = (k, m) ∷ []
issue_if false k m = []

abbrev pub text_of : Option Value → Text
text_of (some (text t)) = t
text_of _ = []

abbrev pub moment_of : Option Value → Option ℕ
moment_of (some (moment m)) = some m
moment_of _ = none

abbrev is_negative : Option Value → Bool
is_negative (some (decimal n t)) = n
is_negative _ = false

abbrev pub opt_moment : (ℕ → Bool) → Option ℕ → Bool
opt_moment p none = false
opt_moment p (some m) = p m

abbrev pub both_moments : (ℕ → ℕ → Bool) → Option ℕ → Option ℕ → Bool
both_moments p (some a) (some b) = p a b
both_moments p _ _ = false

-- The hard requirements. A record always has a source.
unfoldable pub title_issues : Text → List Issue
title_issues t =
    if is_empty t
    then (Key.title, codes "missing") ∷ []
    else issue_if (ltb (length t) 8) Key.title (codes "shorter than 8 characters")

unfoldable pub hard_issues : Checks → Record → List Issue
unfolding title_issues
hard_issues c r =
    let url = text_of (r.fields Field.source_url) in
    title_issues (strip_by c.is_space (text_of (r.fields Field.title)))
    ++ issue_if (is_empty url || not (c.is_http_url url)) Key.source_url
        (codes "missing or not a valid http(s) URL")

unfoldable pub date_issues : ℕ → Option ℕ → Option ℕ → List Issue
date_issues now published closing =
    issue_if (opt_moment (λ m. ltb (now + 2 * day) m) published) Key.published_at
      (codes "publication date is in the future")
    ++ (issue_if (opt_moment (λ m. ltb (m + 365 * 25 * day) now) published) Key.published_at
          (codes "publication date is implausibly old")
        ++ (issue_if (opt_moment (λ m. ltb (now + 365 * 10 * day) m) closing) Key.closing_at
              (codes "closing date is implausibly far in the future")
            ++ issue_if (both_moments (λ p q. ltb (q + day) p) published closing) Key.closing_at
                (codes "closing date precedes the publication date")))

-- The first document that is no http(s) URL.
unfoldable pub document_issues : Checks → List Text → List Issue
document_issues c [] = []
document_issues c (d ∷ ds) =
    if c.is_http_url d
    then document_issues c ds
    else (Key.documents, codes "invalid document URL: " ++ take 120 d) ∷ []

abbrev is_other : Option Value → Bool
is_other v = text_eq (text_of v) (codes "OTHER")

abbrev is_unknown : Option Value → Bool
is_unknown v = text_eq (text_of v) (codes "UNKNOWN")

unfoldable pub submission_issues : Checks → Text → List Issue
submission_issues c url =
    issue_if (not (is_empty url) && not (c.is_http_url url)) Key.submission_url
      (codes "not a valid http(s) URL")

abbrev pub value_issues : Record → List Issue
value_issues r =
    issue_if (is_negative (r.fields Field.estimated_value)) Key.estimated_value
      (codes "negative value")
    ++ issue_if
        (is_some (r.fields Field.estimated_value) && not (is_some (r.fields Field.currency)))
        Key.currency (codes "value present without a currency")

-- What the source leaves open.
abbrev pub open_issues : Record → List Issue
open_issues r =
    issue_if (is_other (r.fields Field.procurement_type)) Key.procurement_type
      (codes "could not be determined from the source")
    ++ (issue_if (is_unknown (r.fields Field.status)) Key.status
          (codes "could not be determined from the source")
        ++ (issue_if (is_empty (text_of (r.fields Field.reference_number))) Key.reference_number
              (codes "not published by the source")
            ++ issue_if (not (is_some (r.fields Field.closing_at))) Key.closing_at
                (codes "not published or not parseable")))

unfoldable pub soft_issues : Checks → Record → List Issue
soft_issues c r =
    date_issues c.now (moment_of (r.fields Field.published_at))
      (moment_of (r.fields Field.closing_at))
    ++ (value_issues r
        ++ (submission_issues c (text_of (r.fields Field.submission_url))
            ++ (document_issues c r.documents ++ open_issues r)))

-- `_completeness`, in hundredths
abbrev present : Option Value → Bool
present none = false
present (some (text t)) = not (is_empty t)
present (some _) = true

abbrev weight : Bool → ℕ → ℕ
weight b w = if b then w else 0

unfoldable pub completeness : Record → ℕ
completeness r =
    weight (present (r.fields Field.reference_number)) 15
    + weight (present (r.fields Field.description)) 15
    + weight (present (r.fields Field.published_at)) 15
    + weight (present (r.fields Field.closing_at)) 20
    + weight (present (r.fields Field.organization)) 10
    + weight (not_empty r.documents) 15
    + weight (is_some r.contact) 10

abbrev pub is_trigger : Key → Bool
is_trigger Key.closing_at = true
is_trigger Key.published_at = true
is_trigger Key.estimated_value = true
is_trigger Key.documents = true
is_trigger Key.submission_url = true
is_trigger _ = false

unfoldable pub is_suspicious : Issue → Bool
is_suspicious (k, m) =
    is_trigger k
    && (contains (codes "future") m
        || contains (codes "precedes") m
        || contains (codes "implausibly") m
        || contains (codes "negative") m
        || contains (codes "invalid") m)

abbrev pub is_hard_key : Issue → Bool
is_hard_key (Key.title, m) = true
is_hard_key (Key.source_url, m) = true
is_hard_key _ = false

-- `_classify`
unfoldable pub classify : Bool → List Issue → ℕ → DataQuality
unfolding is_suspicious
classify hard_failure issues score =
    if hard_failure
    then invalid
    else if any is_suspicious issues
    then needs_review
    else if leb 70 score && not (any is_hard_key issues)
    then valid
    else if leb 30 score
    then incomplete
    else needs_review

-- `validate`
pub record ValidationResult : Type 0 where
  pub quality : DataQuality
  pub issues : List Issue
  pub completeness : ℕ

unfoldable pub validate : Checks → Record → ValidationResult
unfolding hard_issues soft_issues completeness classify
validate c r =
    let hard = hard_issues c r in
    let issues = hard ++ soft_issues c r in
    record {
      quality = classify (not_empty hard) issues (completeness r);
      issues = issues;
      completeness = completeness r;
    }

-- `is_persistable`
abbrev pub is_persistable : DataQuality → Bool
is_persistable invalid = false
is_persistable _ = true
