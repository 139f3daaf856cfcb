-- ===== src/Prelude/Text.antt =====
-- Python's `str` as a list of code points, with the string methods that the program calls.
-- The Unicode tables behind `isspace`, `isalnum`, `lower` and `upper` are parameters.
use Prim.Native.Nat.{ℕ}
use Prim.Native.Char.{code}
use Prim.Native.String.{String}
use mathlib.Core.Path.{◌≡◌, refl}
use mathlib.Core.Bool.{Bool, true, false, ◌&&◌, ◌||◌}
use mathlib.Core.Option.{Option, none, some}
use mathlib.Core.List.{List, [], ◌∷◌, reverse}
use native.Mathlib.Omega.{arith}
use tenderbase_api.Prelude.Tests.{◌==◌, if◌then◌else◌, is_some}

abbrev pub Text : Type 0
Text = List ℕ

pub record Unicode : Type 0 where
  pub is_space : ℕ → Bool
  pub is_alnum : ℕ → Bool
  pub lower : Text → Text
  pub upper : Text → Text

-- The code points of a literal.
abbrev pub codes : String → Text
codes String.[] = []
codes (String.◌∷◌ c s) = code c ∷ codes s

abbrev pub text_eq : Text → Text → Bool
text_eq [] [] = true
text_eq [] (d ∷ t) = false
text_eq (c ∷ s) [] = false
text_eq (c ∷ s) (d ∷ t) = c == d && text_eq s t

pub text_eq_refl : (s : Text) → text_eq s s ≡ true
text_eq_refl [] = refl
text_eq_refl (c ∷ s) = ground (arith, text_eq_refl s)

pub eq_of_text_eq : (s t : Text) → text_eq s t ≡ true → s ≡ t
eq_of_text_eq [] [] h = refl
eq_of_text_eq [] (d ∷ t) h = ground arith
eq_of_text_eq (c ∷ s) [] h = ground arith
eq_of_text_eq (c ∷ s) (d ∷ t) h = ground (arith, eq_of_text_eq s t)

-- `not s`
abbrev pub is_empty : Text → Bool
is_empty [] = true
is_empty (_ ∷ _) = false

abbrev pub elem : Text → List Text → Bool
elem s [] = false
elem s (t ∷ ts) = text_eq s t || elem s ts

-- `c in chars`
abbrev pub has_char : ℕ → Text → Bool
has_char c [] = false
has_char c (d ∷ s) = c == d || has_char c s

abbrev pub drop_while : (ℕ → Bool) → Text → Text
drop_while p [] = []
drop_while p (c ∷ s) = if p c then drop_while p s else c ∷ s

abbrev pub rstrip_by : (ℕ → Bool) → Text → Text
rstrip_by p s = reverse (drop_while p (reverse s))

-- `s.strip()` at the test for white space
abbrev pub strip_by : (ℕ → Bool) → Text → Text
strip_by p s = rstrip_by p (drop_while p s)

abbrev pub cons_head : ℕ → List Text → List Text
cons_head c [] = (c ∷ []) ∷ []
cons_head c (s ∷ ss) = (c ∷ s) ∷ ss

-- `s.split(sep)` at a separator of one character: never the empty list
abbrev pub split_on : ℕ → Text → List Text
split_on sep [] = [] ∷ []
split_on sep (c ∷ s) = let rest = split_on sep s in if c == sep then [] ∷ rest else cons_head c rest

-- `s.split(c, 1)[0]`
abbrev pub before : ℕ → Text → Text
before sep [] = []
before sep (c ∷ s) = if c == sep then [] else c ∷ before sep s

-- `s[len(p):]` where `s` starts with `p`
abbrev pub strip_prefix? : Text → Text → Option Text
strip_prefix? [] s = some s
strip_prefix? (p ∷ ps) [] = none
strip_prefix? (p ∷ ps) (c ∷ s) = if p == c then strip_prefix? ps s else none

-- `w in s`
abbrev pub contains : Text → Text → Bool
contains w [] = is_some (strip_prefix? w [])
contains w (c ∷ s) = is_some (strip_prefix? w (c ∷ s)) || contains w s
