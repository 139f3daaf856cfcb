-- ===== src/Cleaning/Edges.antt =====
-- app/utils/text.py: the two ends of a text that was stripped.
use mathlib.Core.List.{reverse, reverse_aux, reverse-append, reverse-cons, reverse-reverse}
use tenderbase_api.Prelude.{
  Bool-cases, length, ℕ, ◌+◌, ◌≤◌, ◌≡◌, refl, inl, inr, Bool, false, [], ◌∷◌, ◌++◌, arith,
}
use tenderbase_api.Prelude.Text.{Text, Unicode, is_empty, drop_while, rstrip_by, strip_by}
use tenderbase_api.Cleaning.{}

abbrev pub starts_with_space : Unicode → Text → Bool
starts_with_space u [] = false
starts_with_space u (c ∷ s) = u.is_space c

-- White space stands at neither end of the text.
unfoldable pub IsTrimmed : Unicode → Text → Type 0
IsTrimmed u s = (starts_with_space u s ≡ false) × (starts_with_space u (reverse s) ≡ false)

drop_while-starts : (u : Unicode) (s : Text) → starts_with_space u (drop_while u.is_space s) ≡ false
drop_while-starts u [] = refl
drop_while-starts u (c ∷ s) = elim (Bool-cases (u.is_space c)) [
  | inl e ↦ ground (arith, e, drop_while-starts u s)
  | inr e ↦ ground (arith, e)
]

drop_while-last :
    (p : ℕ → Bool) (s : Text) (c : ℕ)
    → p c ≡ false
    → drop_while p (s ++ (c ∷ [])) ≡ drop_while p s ++ (c ∷ [])
drop_while-last p [] c h = rw h refl
drop_while-last p (d ∷ s) c h = elim (Bool-cases (p d)) [
  | inl e ↦ rw e (drop_while-last p s c h)
  | inr e ↦ rw e refl
]

rstrip_by-cons :
    (p : ℕ → Bool) (c : ℕ) (s : Text) → p c ≡ false → rstrip_by p (c ∷ s) ≡ c ∷ rstrip_by p s
rstrip_by-cons p c s h = rw (reverse-cons c s) (
    rw (drop_while-last p (reverse s) c h)
      (rw (reverse-append (drop_while p (reverse s)) (c ∷ [])) refl))

ends_trimmed :
    (u : Unicode) (s : Text) → starts_with_space u (reverse (rstrip_by u.is_space s)) ≡ false
ends_trimmed u s =
    rw (reverse-reverse (drop_while u.is_space (reverse s))) (drop_while-starts u (reverse s))

pub rstrip_by-IsTrimmed :
    (u : Unicode) (s : Text) → starts_with_space u s ≡ false → IsTrimmed u (rstrip_by u.is_space s)
unfolding IsTrimmed
rstrip_by-IsTrimmed u [] h = (refl, refl)
rstrip_by-IsTrimmed u (c ∷ s) h = (rw (rstrip_by-cons u.is_space c s h) h, ends_trimmed u (c ∷ s))

pub strip_by-IsTrimmed : (u : Unicode) (s : Text) → IsTrimmed u (strip_by u.is_space s)
strip_by-IsTrimmed u s = rstrip_by-IsTrimmed u (drop_while u.is_space s) (drop_while-starts u s)

-- A text that starts with another character than white space is not stripped to nothing.
pub rstrip_by-keeps :
    (u : Unicode) (c : ℕ) (s : Text)
    → u.is_space c ≡ false
    → is_empty (rstrip_by u.is_space (c ∷ s)) ≡ false
rstrip_by-keeps u c s h = rw (rstrip_by-cons u.is_space c s h) refl

length-reverse_aux : (s t : Text) → length (reverse_aux s t) ≡ length s + length t
length-reverse_aux [] t = omega arith
length-reverse_aux (c ∷ s) t = omega (arith, length-reverse_aux s (c ∷ t))

length-drop_while : (p : ℕ → Bool) (s : Text) → length (drop_while p s) ≤ length s
length-drop_while p [] = omega arith
length-drop_while p (c ∷ s) = elim (Bool-cases (p c)) [
  | inl e ↦ rw e (omega (arith, length-drop_while p s))
  | inr e ↦ rw e (omega arith)
]

pub length-rstrip_by : (p : ℕ → Bool) (s : Text) → length (rstrip_by p s) ≤ length s
length-rstrip_by p s = omega (
  arith,
  length-reverse_aux (drop_while p (reverse s)) [],
  length-drop_while p (reverse s),
  length-reverse_aux s [],
)
