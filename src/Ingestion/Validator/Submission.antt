-- ===== src/Ingestion/Validator/Submission.antt =====
-- app/ingestion/validator.py: the submission URL and the quality of a record.
use tenderbase_api.Prelude.{
  any, any-append, ℕ, ◌≡◌, refl, sym, ◌∙◌, Bool, true, false, not, ◌&&◌, ◌||◌, Option, List, ◌++◌,
}
use tenderbase_api.Prelude.Text.{Text, codes, is_empty}
use tenderbase_api.Ingestion.Record.{Field, Value, Record, set_field, Field-discrete}
use tenderbase_api.Ingestion.Versioning.{not_empty}
use tenderbase_api.Ingestion.Validator.{
  Key, Checks, Issue, issue_if, text_of, moment_of, hard_issues, soft_issues, completeness,
  is_suspicious, is_hard_key, classify, validate, date_issues, document_issues, submission_issues,
  open_issues, value_issues,
}

-- The message about a submission URL holds none of the words that are searched for.
abbrev pub with_submission_url : Option Value → Record → Record
with_submission_url v r = record r { fields = set_field Field.submission_url v r.fields }

submission_issue :
    (b : Bool)
    → any is_suspicious (issue_if b Key.submission_url (codes "not a valid http(s) URL")) ≡ false
unfolding is_suspicious
submission_issue true = refl
submission_issue false = refl

submission_hard : (b : Bool) (m : Text) → any is_hard_key (issue_if b Key.submission_url m) ≡ false
submission_hard true m = refl
submission_hard false m = refl

submission_never : (c : Checks) (t : Text) → any is_suspicious (submission_issues c t) ≡ false
unfolding submission_issues
submission_never c t = submission_issue (not (is_empty t) && not (c.is_http_url t))

submission_soft : (c : Checks) (t : Text) → any is_hard_key (submission_issues c t) ≡ false
unfolding submission_issues
submission_soft c t =
    submission_hard (not (is_empty t) && not (c.is_http_url t)) (codes "not a valid http(s) URL")

-- A test that holds of no submission message holds of as many messages without it.
without_submission :
    (p : Issue → Bool) (c : Checks) (hard dates values last : List Issue) (t u : Text)
    → ((w : Text) → any p (submission_issues c w) ≡ false)
    → any p (hard ++ (dates ++ (values ++ (submission_issues c t ++ last))))
      ≡ any p (hard ++ (dates ++ (values ++ (submission_issues c u ++ last))))
without_submission p c hard dates values last t u never =
    drop_submission t ∙ sym (drop_submission u)
  where
    drop_submission :
        (w : Text)
        → any p (hard ++ (dates ++ (values ++ (submission_issues c w ++ last))))
          ≡ (any p hard || (any p dates || (any p values || any p last)))
    drop_submission w =
        rw (any-append p hard (dates ++ (values ++ (submission_issues c w ++ last)))) rw
          (any-append p dates (values ++ (submission_issues c w ++ last))) rw
          (any-append p values (submission_issues c w ++ last)) rw
          (any-append p (submission_issues c w) last) rw (never w) refl

classify-by :
    (h : Bool) (is js : List Issue) (n : ℕ)
    → any is_suspicious is ≡ any is_suspicious js
    → any is_hard_key is ≡ any is_hard_key js
    → classify h is n ≡ classify h js n
unfolding classify
classify-by h is js n e f = rw e rw f refl

-- Whatever the submission URL is, the record has the same quality.
pub validate-with_submission_url :
    (c : Checks) (r : Record) (v : Option Value)
    → (validate c (with_submission_url v r)).quality ≡ (validate c r).quality
unfolding validate hard_issues soft_issues completeness Field-discrete
validate-with_submission_url c r v =
    classify-by (not_empty (hard_issues c r))
      (hard_issues c (with_submission_url v r) ++ soft_issues c (with_submission_url v r))
      (hard_issues c r ++ soft_issues c r) (completeness r)
      (without_submission is_suspicious c (hard_issues c r)
        (date_issues c.now (moment_of (r.fields Field.published_at))
          (moment_of (r.fields Field.closing_at)))
        (value_issues r) (document_issues c r.documents ++ open_issues r) (text_of v)
        (text_of (r.fields Field.submission_url)) (submission_never c))
      (without_submission is_hard_key c (hard_issues c r)
        (date_issues c.now (moment_of (r.fields Field.published_at))
          (moment_of (r.fields Field.closing_at)))
        (value_issues r) (document_issues c r.documents ++ open_issues r) (text_of v)
        (text_of (r.fields Field.submission_url)) (submission_soft c))
