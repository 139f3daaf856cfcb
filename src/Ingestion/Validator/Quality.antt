-- ===== src/Ingestion/Validator/Quality.antt =====
-- app/ingestion/validator.py: when a record is refused.
use tenderbase_api.Prelude.{
  ltb, leb, ltb-not-leb, length, ℕ, suc, ◌≡◌, refl, ◌∙◌, Bool, true, false, not, ◌&&◌, ◌||◌, List,
  [], ◌∷◌, ◌++◌, arith,
}
use tenderbase_api.Prelude.Text.{Text, codes, is_empty, strip_by}
use tenderbase_api.Ingestion.Record.{Field, Record}
use tenderbase_api.Ingestion.Versioning.{not_empty}
use tenderbase_api.Ingestion.Validator.{
  Key, Checks, Issue, issue_if, text_of, title_issues, hard_issues, soft_issues, completeness,
  classify, validate, is_persistable,
}

not_empty-append {ℓ} :
    {A : Type ℓ} (xs ys : List A) → not_empty (xs ++ ys) ≡ (not_empty xs || not_empty ys)
not_empty-append [] ys = refl
not_empty-append (x ∷ xs) ys = refl

not_empty-issue_if : (b : Bool) (k : Key) (m : Text) → not_empty (issue_if b k m) ≡ b
not_empty-issue_if true k m = refl
not_empty-issue_if false k m = refl

title_issues-ok : (t : Text) → not_empty (title_issues t) ≡ not (leb 8 (length t))
unfolding title_issues
title_issues-ok [] = refl
title_issues-ok (c ∷ t) =
    not_empty-issue_if (ltb (suc (length t)) 8) Key.title _ ∙ ltb-not-leb (suc (length t)) 8

abbrev pub hard_ok : Checks → Record → Bool
hard_ok c r =
    leb 8 (length (strip_by c.is_space (text_of (r.fields Field.title))))
    && (not (is_empty (text_of (r.fields Field.source_url)))
        && c.is_http_url (text_of (r.fields Field.source_url)))

de_morgan : (a b c : Bool) → (not a || (b || not c)) ≡ not (a && (not b && c))
de_morgan true true c = refl
de_morgan true false c = refl
de_morgan false b c = refl

not-not : (b : Bool) → not (not b) ≡ b
not-not true = refl
not-not false = refl

hard_issues-ok : (c : Checks) (r : Record) → not_empty (hard_issues c r) ≡ not (hard_ok c r)
unfolding hard_issues
hard_issues-ok c r =
    not_empty-append (title_issues (strip_by c.is_space (text_of (r.fields Field.title)))) _
    ∙ (rw (title_issues-ok (strip_by c.is_space (text_of (r.fields Field.title)))) rw
        (not_empty-issue_if
          (is_empty (text_of (r.fields Field.source_url))
            || not (c.is_http_url (text_of (r.fields Field.source_url))))
          Key.source_url (codes "missing or not a valid http(s) URL"))
        (de_morgan (leb 8 (length (strip_by c.is_space (text_of (r.fields Field.title)))))
          (is_empty (text_of (r.fields Field.source_url)))
          (c.is_http_url (text_of (r.fields Field.source_url)))))

classify-is_persistable :
    (h : Bool) (is : List Issue) (n : ℕ) → is_persistable (classify h is n) ≡ not h
unfolding classify
classify-is_persistable true is n = refl
classify-is_persistable false is n = ground arith

-- A record is persistable exactly when its stripped title has at least 8 characters and its source
-- URL is a non-empty http(s) URL; no other field can make it INVALID.
pub validate-is_persistable :
    (c : Checks) (r : Record) → is_persistable (validate c r).quality ≡ hard_ok c r
unfolding validate
validate-is_persistable c r =
    classify-is_persistable (not_empty (hard_issues c r)) (hard_issues c r ++ soft_issues c r)
      (completeness r)
    ∙ (rw (hard_issues-ok c r) (not-not (hard_ok c r)))
