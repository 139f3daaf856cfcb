-- ===== src/Ingestion/Dedup/Lists.antt =====
-- What a query returns is one of the rows and fits.
use mathlib.Core.List.{Memᴰ}
use tenderbase_api.Prelude.{
  if◌then◌else◌, Bool-cases, keep, first, ◌≡◌, sym, subst, inl, inr, Bool, true, false, Option,
  none, some, some-injective, List, [], ◌∷◌, arith,
}

module _ {A : Type 0} where
  pub first_sound :
      (p : A → Bool) (xs : List A) (x : A) → first p xs ≡ some x → Memᴰ x xs × (p x ≡ true)
  first_sound p [] x h = absurd (ground arith)
  first_sound p (y ∷ ys) x h = elim (Bool-cases (p y)) [
    | inl e ↦
        let same : y ≡ x = some-injective y x (rw e at h) in
        (Memᴰ.head (sym same), subst (λ z. p z ≡ true) same e)
    | inr e ↦ let rest = first_sound p ys x (rw e at h) in (Memᴰ.tail rest.0, rest.1)
  ]

  pub first_complete :
      (p : A → Bool) (xs : List A) (x : A)
      → Memᴰ x xs
      → p x ≡ true
      → (y : A) × (first p xs ≡ some y)
  first_complete p [] x m h = elim m [ ]
  first_complete p (y ∷ ys) x (Memᴰ.head e) h = (y, rw (← e, h))
  first_complete p (y ∷ ys) x (Memᴰ.tail m) h = elim (Bool-cases (p y)) [
    | inl e ↦ (y, rw e)
    | inr e ↦ let (z, q) = first_complete p ys x m h in (z, rw e q)
  ]

  pub keep_sound :
      (p : A → Bool) (xs : List A) (x : A) → Memᴰ x (keep p xs) → Memᴰ x xs × (p x ≡ true)
  keep_sound p [] x m = elim m [ ]
  keep_sound p (y ∷ ys) x m =
      let rest = keep_sound p ys x in
      elim (Bool-cases (p y)) [
        | inl e ↦ at_head e rest (rw e at m)
        | inr e ↦ let (m', q) = rest (rw e at m) in (Memᴰ.tail m', q)
      ]
    where
      at_head :
          p y ≡ true
          → (Memᴰ x (keep p ys) → Memᴰ x ys × (p x ≡ true))
          → Memᴰ x (y ∷ keep p ys)
          → Memᴰ x (y ∷ ys) × (p x ≡ true)
      at_head e rest (Memᴰ.head same) = (Memᴰ.head same, subst (λ z. p z ≡ true) (sym same) e)
      at_head e rest (Memᴰ.tail m') = let (m'', q) = rest m' in (Memᴰ.tail m'', q)

  -- A query behind a guard.
  pub guarded : (b : Bool) (m : Option A) (x : A) → (if b then none else m) ≡ some x → m ≡ some x
  guarded true m x h = absurd (ground arith)
  guarded false m x h = h

  pub enabled : (b : Bool) (m : Option A) (x : A) → (if b then m else none) ≡ some x → m ≡ some x
  enabled true m x h = h
  enabled false m x h = absurd (ground arith)
