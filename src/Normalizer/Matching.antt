-- ===== src/Normalizer/Matching.antt =====
-- app/ingestion/normalizer.py: when a table of keywords, and the chain of a field, a table and a
-- fallback, give nothing.
use tenderbase_api.Prelude.{
  if◌then◌else◌, Bool-cases, any, ◌≡◌, refl, ◌↔◌, ◌⊎◌, inl, inr, Bool, true, false, Option, none,
  some, List, [], ◌∷◌, arith,
}
use tenderbase_api.Prelude.Text.{Text}
use tenderbase_api.Normalizer.{any_word, first_match, or_else, or_value}

pub product_iff :
    {S A B C A' B' C' : Type 0} → A ↔ A' → B ↔ B' → C ↔ C' → S ↔ (A × B × C) → S ↔ (A' × B' × C')
product_iff a b c s =
    (λ h. (a.0 (s.0 h).0, b.0 (s.0 h).1, c.0 (s.0 h).2), λ h. s.1 (a.1 h.0, b.1 h.1, c.1 h.2))

module _ {A : Type 0} where
  pub first_match-none :
      (table : List (A × List Text)) (t : Text)
      → (first_match table t ≡ none) ↔ (any (λ e. any_word e.1 t) table ≡ false)
  unfolding first_match
  first_match-none [] t = (λ h. refl, λ h. refl)
  first_match-none ((a, words) ∷ table) t =
      let rest = first_match-none table t in
      elim (Bool-cases (any_word words t)) [
        | inl e ↦ ground (arith, e, rest)
        | inr e ↦ ground (arith, e, rest)
      ]

  pub first_match-neq :
      (is_bad : A → Bool) (table : List (A × List Text)) (t : Text) {bad : A}
      → is_bad bad ≡ true
      → any (λ e. is_bad e.0) table ≡ false
      → ¬ (first_match table t ≡ some bad)
  unfolding first_match
  first_match-neq is_bad [] t b good h = ground arith
  first_match-neq is_bad ((a, words) ∷ table) t b good h = elim (Bool-cases (is_bad a)) [
    | inl e ↦ ground (arith, e, good)
    | inr e ↦ elim (Bool-cases (any_word words t)) [
      | inl e' ↦ ground (arith, b, e, e', h)
      | inr e' ↦ first_match-neq is_bad table t b (ground (arith, e, good)) (ground (arith, e', h))
    ]
  ]

  pub or_else_iff :
      (b : Bool) (k w : Option A) {K W : Type 0}
      → (k ≡ none) ↔ K
      → (w ≡ none) ↔ W
      → ((if b then or_else k w else none) ≡ none) ↔ ((b ≡ false) ⊎ (K × W))
  or_else_iff false k w hk hw = (λ h. inl refl, λ h. refl)
  or_else_iff true none w hk hw =
      (λ h. inr (hk.0 refl, hw.0 h), λ h. elim h [ inl e ↦ ground arith | inr e ↦ hw.1 e.1 ])
  or_else_iff true (some k) w hk hw =
      (λ h. ground arith, λ h. elim h [ inl e ↦ ground arith | inr e ↦ hk.1 e.0 ])

  pub or_value-eq :
      (a b : Option A) (c x : A)
      → ¬ (a ≡ some x)
      → ¬ (b ≡ some x)
      → (or_value a (or_value b c) ≡ x) ↔ ((a ≡ none) × (b ≡ none) × (c ≡ x))
  or_value-eq none none c x ha hb = (λ h. (refl, refl, h), λ h. h.2)
  or_value-eq none (some b) c x ha hb = ground (arith, hb)
  or_value-eq (some a) b c x ha hb = ground (arith, ha)
