-- ===== src/Documents/Segments.antt =====
-- app/documents/storage.py: the segments of a path, and the texts that are plain ones.
use tenderbase_api.Prelude.{
  ◌==◌, Bool-cases, length, take, all, keep, ℕ, zero, suc, ◌≤◌, ◌≡◌, refl, sym, subst, ◌∙◌, inl,
  inr, Bool, true, false, not, ◌&&◌, Option, none, some, [], ◌∷◌, ◌++◌, arith,
}
use tenderbase_api.Prelude.Text.{Text, Unicode, has_char, split_on}
use tenderbase_api.Documents.Storage.{or_misc, suffix, drop2, dotted}

-- A segment that is no name of a directory's own: not empty, and not beginning with a dot.
abbrev pub is_plain : Text → Bool
is_plain [] = false
is_plain (c ∷ s) = not (c == 46)

-- No slash in the text
abbrev HasNoSlash : Text → Type 0
HasNoSlash s = has_char 47 s ≡ false

head_of : (c : ℕ) (s : Text) → HasNoSlash (c ∷ s) → ((c == 47) ≡ false) × HasNoSlash s
head_of c s h = (ground (arith, h), ground (arith, h))

cons_no_slash : (c : ℕ) (s : Text) → (c == 47) ≡ false → HasNoSlash s → HasNoSlash (c ∷ s)
cons_no_slash c s h k = ground (arith, h, k)

split_on-append : (s t : Text) → HasNoSlash s → split_on 47 (s ++ 47 ∷ t) ≡ s ∷ split_on 47 t
split_on-append [] t h = refl
split_on-append (c ∷ s) t h = let (a, b) = head_of c s h in rw (a, split_on-append s t b) refl

split_on-single : (s : Text) → HasNoSlash s → split_on 47 s ≡ s ∷ []
split_on-single [] h = refl
split_on-single (c ∷ s) h = let (a, b) = head_of c s h in rw (a, split_on-single s b) refl

true_not_false : true ≡ false → ⊥
true_not_false e = absurd (ground (arith, e))

differs : (p : ℕ → Bool) (c d : ℕ) → p c ≡ true → p d ≡ false → (c == d) ≡ false
differs p c d h k = elim (Bool-cases (c == d)) [
  | inl e ↦ absurd (true_not_false (sym (subst (λ z. p z ≡ true) (same c d e) h) ∙ k))
  | inr e ↦ e
]
  where
    same : (c d : ℕ) → (c == d) ≡ true → c ≡ d
    same c d e = ground (arith, e)

HasNoSlash-keep : (p : ℕ → Bool) (s : Text) → p 47 ≡ false → HasNoSlash (keep p s)
HasNoSlash-keep p [] h = refl
HasNoSlash-keep p (c ∷ s) h = elim (Bool-cases (p c)) [
  | inl y ↦ rw y (cons_no_slash c (keep p s) (differs p c 47 y h) (HasNoSlash-keep p s h))
  | inr y ↦ rw y (HasNoSlash-keep p s h)
]

HasNoSlash-take : (n : ℕ) (s : Text) → HasNoSlash s → HasNoSlash (take n s)
HasNoSlash-take zero s h = refl
HasNoSlash-take (suc n) [] h = refl
HasNoSlash-take (suc n) (c ∷ s) h =
    let (a, b) = head_of c s h in cons_no_slash c (take n s) a (HasNoSlash-take n s b)

HasNoSlash-append : (s t : Text) → HasNoSlash s → HasNoSlash t → HasNoSlash (s ++ t)
HasNoSlash-append [] t h k = k
HasNoSlash-append (c ∷ s) t h k =
    let (a, b) = head_of c s h in cons_no_slash c (s ++ t) a (HasNoSlash-append s t b k)

-- What is plain begins with a character of the digest or of the name.
not_dot : (b : Bool) → b ≡ false → not b ≡ true
not_dot b h = ground arith

is_plain-keep :
    (p : ℕ → Bool) (s : Text) → p 46 ≡ false → 1 ≤ length (keep p s) → is_plain (keep p s) ≡ true
is_plain-keep p [] h k = absurd (omega (arith, k))
is_plain-keep p (c ∷ s) h k = elim (Bool-cases (p c)) [
  | inl y ↦ rw y (not_dot (c == 46) (differs p c 46 y h))
  | inr y ↦ rw y (is_plain-keep p s h (rw y at k))
]

is_plain-append : (s t : Text) → is_plain s ≡ true → is_plain (s ++ t) ≡ true
is_plain-append [] t h = absurd (ground arith)
is_plain-append (c ∷ s) t h = h

is_plain-take : (n : ℕ) (s : Text) → is_plain s ≡ true → is_plain (take (suc n) s) ≡ true
is_plain-take n [] h = absurd (ground arith)
is_plain-take n (c ∷ s) h = h

-- A segment of a path: plain, and without a slash.
abbrev pub IsSegment : Text → Type 0
IsSegment s = is_plain s ≡ true × HasNoSlash s

pub split_on-four :
    (a b c d : Text)
    → HasNoSlash a
    → HasNoSlash b
    → HasNoSlash c
    → HasNoSlash d
    → split_on 47 (a ++ (47 ∷ (b ++ (47 ∷ (c ++ (47 ∷ d)))))) ≡ a ∷ b ∷ c ∷ d ∷ []
split_on-four a b c d ha hb hc hd =
    rw
      (split_on-append a _ ha, split_on-append b _ hb, split_on-append c d hc, split_on-single d hd)
      refl

pub IsSegment-or_misc :
    (p : ℕ → Bool) (s : Text) → p 46 ≡ false → p 47 ≡ false → IsSegment (or_misc (keep p s))
IsSegment-or_misc p s dot slash = go (keep p s) refl
  where
    go : (k : Text) → keep p s ≡ k → IsSegment (or_misc k)
    go [] e = (refl, refl)
    go (c ∷ k) e = (
      subst (λ z. is_plain z ≡ true) e (is_plain-keep p s dot (nonempty (keep p s) e)),
      subst HasNoSlash e (HasNoSlash-keep p s slash),
    )
      where
        nonempty : (z : Text) → z ≡ c ∷ k → 1 ≤ length z
        nonempty z q = rw q (omega arith)

pub IsSegment-take : (n : ℕ) (s : Text) → IsSegment s → IsSegment (take (suc n) s)
IsSegment-take n s (a, b) = (is_plain-take n s a, HasNoSlash-take (suc n) s b)

pub IsSegment-append : (s t : Text) → IsSegment s → HasNoSlash t → IsSegment (s ++ t)
IsSegment-append s t (a, b) h = (is_plain-append s t a, HasNoSlash-append s t b h)

pub HasNoSlash-suffix :
    (u : Unicode) (e : Option Text) → u.is_alnum 47 ≡ false → HasNoSlash (suffix u e)
HasNoSlash-suffix u none h = refl
HasNoSlash-suffix u (some e) h =
    go (take 8 (keep u.is_alnum (u.lower e)))
      (HasNoSlash-take 8 (keep u.is_alnum (u.lower e)) (HasNoSlash-keep u.is_alnum (u.lower e) h))
  where
    go : (s : Text) → HasNoSlash s → HasNoSlash (dotted s)
    go [] k = refl
    go (c ∷ s) k = k

both : (a b : Bool) → (a && b) ≡ true → (a ≡ true) × (b ≡ true)
both a b h = (ground arith, ground arith)

pub all-keep : (p : ℕ → Bool) (s : Text) → all p (keep p s) ≡ true
all-keep p [] = refl
all-keep p (c ∷ s) = elim (Bool-cases (p c)) [
  | inl y ↦ rw y (rw y (all-keep p s))
  | inr y ↦ rw y (all-keep p s)
]

pub IsSegment-all :
    (p : ℕ → Bool) (s : Text)
    → p 46 ≡ false
    → p 47 ≡ false
    → all p s ≡ true
    → 1 ≤ length s
    → IsSegment s
IsSegment-all p [] dot slash h k = absurd (omega (arith, k))
IsSegment-all p (c ∷ []) dot slash h k =
    let y = both (p c) true h in
    (not_dot (c == 46) (differs p c 46 y.0 dot), cons_no_slash c [] (differs p c 47 y.0 slash) refl)
IsSegment-all p (c ∷ (d ∷ s)) dot slash h k =
    let y = both (p c) (all p (d ∷ s)) h in
    let rest = IsSegment-all p (d ∷ s) dot slash y.1 (omega arith) in
    (
      not_dot (c == 46) (differs p c 46 y.0 dot),
      cons_no_slash c (d ∷ s) (differs p c 47 y.0 slash) rest.1,
    )

-- The second pair of the digest
pub all-drop2 :
    (p : ℕ → Bool) (s : Text)
    → all p s ≡ true
    → 3 ≤ length s
    → all p (drop2 s) ≡ true × 1 ≤ length (drop2 s)
all-drop2 p [] h k = absurd (omega (arith, k))
all-drop2 p (a ∷ []) h k = absurd (omega (arith, k))
all-drop2 p (a ∷ (b ∷ [])) h k = absurd (omega (arith, k))
all-drop2 p (a ∷ (b ∷ (c ∷ s))) h k =
    ((both (p b) (all p (c ∷ s)) (both (p a) _ h).1).1, omega arith)
