-- ===== src/Cleaning/Clean.antt =====
-- app/utils/text.py: what `clean_text` promises of a text that is stored.

use tenderbase_api.Prelude.{
  ltb, Bool-cases, le_of_not_ltb, length, take, keep, length-take, All, ℕ, zero, suc, ◌≤◌, ◌≡◌,
  refl, subst, inl, inr, false, not, Option, none, some, [], ◌∷◌, arith,
}
use tenderbase_api.Prelude.Text.{Text, Unicode, is_empty, rstrip_by}
use tenderbase_api.Source.Due.Selection.{All-take}
use tenderbase_api.Cleaning.{clean_text, cut, is_control, tidy}
use tenderbase_api.Cleaning.Steps.{All-rstrip_by, All-tidy}
use tenderbase_api.Cleaning.Edges.{
  IsTrimmed, length-rstrip_by, rstrip_by-IsTrimmed, rstrip_by-keeps, starts_with_space,
  strip_by-IsTrimmed,
}

-- The text has no control character.
pub IsPrintable : Text → Type 0
IsPrintable = All (λ c. is_control c ≡ false)

keep-IsPrintable : (s : Text) → IsPrintable (keep (λ c. not (is_control c)) s)
unfolding IsPrintable
keep-IsPrintable [] = tt
keep-IsPrintable (c ∷ s) = elim (Bool-cases (is_control c)) [
  | inl e ↦ rw e (keep-IsPrintable s)
  | inr e ↦ rw e (e, keep-IsPrintable s)
]

-- What a column may hold: a text that is not empty, no longer than the column, without control
-- characters, and without white space at its ends.
pub IsClean : Unicode → ℕ → Text → Type 0
IsClean u n t = (is_empty t ≡ false) × (length t ≤ n) × IsPrintable t × IsTrimmed u t

tidy-IsPrintable :
    (u : Unicode) (nfkc : Text → Text) (value : Text) → IsPrintable (tidy u nfkc value)
unfolding IsPrintable
tidy-IsPrintable u nfkc value =
    All-tidy (λ c. is_control c ≡ false) u nfkc value refl refl (keep-IsPrintable (nfkc value))

tidy-IsTrimmed : (u : Unicode) (nfkc : Text → Text) (value : Text) → IsTrimmed u (tidy u nfkc value)
unfolding tidy
tidy-IsTrimmed u nfkc value = strip_by-IsTrimmed u _

take-starts :
    (u : Unicode) (n : ℕ) (t : Text)
    → starts_with_space u t ≡ false
    → starts_with_space u (take n t) ≡ false
take-starts u zero t h = refl
take-starts u (suc n) [] h = refl
take-starts u (suc n) (c ∷ t) h = h

cut-keeps :
    (u : Unicode) (n : ℕ) (t : Text)
    → 1 ≤ n
    → starts_with_space u t ≡ false
    → is_empty t ≡ false
    → is_empty (rstrip_by u.is_space (take n t)) ≡ false
cut-keeps u zero t h e f = ground arith
cut-keeps u (suc n) [] h e f = ground arith
cut-keeps u (suc n) (c ∷ t) h e f = rstrip_by-keeps u c (take n t) e

cut-IsClean :
    (u : Unicode) (n : ℕ) (t : Text)
    → 1 ≤ n
    → IsPrintable t
    → IsTrimmed u t
    → is_empty t ≡ false
    → IsClean u n (cut u (some n) t)
unfolding cut IsClean IsPrintable IsTrimmed
cut-IsClean u n t h p e f = elim (Bool-cases (ltb n (length t))) [
  | inl x ↦ rw x (
    cut-keeps u n t h e.0 f,
    omega (arith, length-rstrip_by u.is_space (take n t), length-take n t),
    All-rstrip_by (λ c. is_control c ≡ false) u.is_space (take n t)
        (All-take (λ c. is_control c ≡ false) n t p),
    rstrip_by-IsTrimmed u (take n t) (take-starts u n t e.0),
  )
  | inr x ↦ rw x (f, le_of_not_ltb n (length t) x, p, e)
]

-- Every text that is cleaned for a column of at least one character is either missing or clean: it is
-- not empty, no longer than the column, has no control character, and no white space at its ends.
pub clean_text-IsClean :
    (u : Unicode) (nfkc : Text → Text) (n : ℕ) (value : Option Text) (t : Text)
    → 1 ≤ n
    → clean_text u nfkc (some n) value ≡ some t
    → IsClean u n t
unfolding clean_text
clean_text-IsClean u nfkc n none t h e = ground arith
clean_text-IsClean u nfkc n (some value) t h e = elim (Bool-cases (is_empty (tidy u nfkc value))) [
  | inl x ↦ ground (arith, x, e)
  | inr x ↦ subst (IsClean u n) (ground (arith, x, e)) (
      cut-IsClean u n (tidy u nfkc value) h (tidy-IsPrintable u nfkc value)
        (tidy-IsTrimmed u nfkc value) x)
]
