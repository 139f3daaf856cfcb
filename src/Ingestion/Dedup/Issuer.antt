-- ===== src/Ingestion/Dedup/Issuer.antt =====
-- app/ingestion/deduplicator.py: the evidence behind a match, and what is never merged.
use mathlib.Core.List.{Memᴰ}
use tenderbase_api.Prelude.{
  ltb, ◌==◌, Bool-cases, is_some, keep, first, ℕ, ◌+◌, ◌/◌, ◌≡◌, refl, sym, subst, ◌⊎◌, inl, inr,
  Bool, true, false, not, Option, none, some, some-injective, List, [], ◌∷◌, arith,
}
use tenderbase_api.Enums.{DuplicateDecision, exact_match}
use tenderbase_api.Ingestion.Record.{
  Record, Opportunity, Layer, reference, content, fingerprint, trigram, none_matched,
}
use tenderbase_api.Ingestion.Dedup.Lists.{first_sound, keep_sound, first_complete, guarded, enabled}
use tenderbase_api.Ingestion.Dedup.Layers.{
  Setting, fuzzy_fits, id_eq, or_else, raw_reference, layer1_row, layer2_row, layer3_row,
  layer3_decision, layer4_row, layer4_decision, best, layer2_fits, layer3_fits, layer1_fits,
  is_blank,
}
use tenderbase_api.Ingestion.Dedup.{
  DedupResult, is_duplicate, conflicts_with, find_duplicate, by_layer1, score, on_row,
  unless_conflict, found, by_layer2, by_layer4, by_layer3, no_match, result_or, or_try,
}

-- The same source, or the same known municipality.
abbrev pub SharesScope : Record → Opportunity → Type 0
SharesScope r o =
    (o.source_id ≡ r.source_id)
    ⊎ ((is_some r.municipality_id ≡ true) × (id_eq o.municipality_id r.municipality_id ≡ true))

-- Two municipalities, both known.
abbrev pub differs : Option ℕ → Option ℕ → Bool
differs (some a) (some b) = not (a == b)
differs _ _ = false

row1 :
    (r : Record) (db : List Opportunity) (o : Opportunity)
    → layer1_row r db ≡ some o
    → Memᴰ o db × (layer1_fits r o ≡ true)
unfolding layer1_row
row1 r db o h = first_sound (layer1_fits r) db o (guarded _ (first (layer1_fits r) db) o h)

row2 :
    (r : Record) (db : List Opportunity) (o : Opportunity)
    → layer2_row r db ≡ some o
    → Memᴰ o db × (layer2_fits r o ≡ true)
unfolding layer2_row
row2 r db o h = first_sound (layer2_fits r) db o (guarded _ (first (layer2_fits r) db) o h)

row3 :
    (r : Record) (db : List Opportunity) (o : Opportunity)
    → layer3_row r db ≡ some o
    → Memᴰ o db × (layer3_fits r o ≡ true)
unfolding layer3_row
row3 r db o h = first_sound (layer3_fits r) db o (guarded _ (first (layer3_fits r) db) o h)

best_sound :
    (f : Opportunity → ℕ) (top : Option Opportunity) (os : List Opportunity) (o : Opportunity)
    → best f top os ≡ some o
    → (top ≡ some o) ⊎ Memᴰ o os
unfolding best
best_sound f top [] o h = inl h
best_sound f none (x ∷ os) o h = elim (best_sound f (some x) os o h) [
  | inl e ↦ inr (Memᴰ.head (sym (some-injective x o e)))
  | inr m ↦ inr (Memᴰ.tail m)
]
best_sound f (some t) (x ∷ os) o h = elim (Bool-cases (ltb (f t) (f x))) [
  | inl e ↦ elim (best_sound f (some x) os o (rw e at h)) [
    | inl p ↦ inr (Memᴰ.head (sym (some-injective x o p)))
    | inr m ↦ inr (Memᴰ.tail m)
  ]
  | inr e ↦ elim (best_sound f (some t) os o (rw e at h)) [
    | inl p ↦ inl p
    | inr m ↦ inr (Memᴰ.tail m)
  ]
]

row4 :
    (st : Setting) (r : Record) (db : List Opportunity) (o : Opportunity)
    → layer4_row st r db ≡ some o
    → Memᴰ o db × (fuzzy_fits st r o ≡ true)
unfolding layer4_row
row4 st r db o h =
    elim (best_sound (score st r) none (keep (fuzzy_fits st r) db) o (guarded _ _ o h)) [
      | inl e ↦ absurd (ground arith)
      | inr m ↦ keep_sound (fuzzy_fits st r) db o m
    ]

-- What stands behind a result: the layer's own evidence.
abbrev pub Evidence : Setting → Record → DuplicateDecision → Layer → Opportunity → Type 0
Evidence st r d reference o = layer1_fits r o ≡ true
Evidence st r d content o = (layer2_fits r o ≡ true) × (conflicts_with st r o ≡ false)
Evidence st r d fingerprint o =
    (layer3_fits r o ≡ true)
    × (conflicts_with st r o ≡ false)
    × (is_duplicate d ≡ true
        → SharesScope r o × (differs r.municipality_id o.municipality_id ≡ false))
Evidence st r d trigram o = fuzzy_fits st r o ≡ true
Evidence st r d none_matched o = ⊥

-- A result about a stored row.
abbrev pub IsAbout : Setting → Record → List Opportunity → DedupResult → Type 0
IsAbout st r db d =
    (o : Opportunity) × Memᴰ o db × (d.existing_id ≡ some o.id) × Evidence st r d.decision d.layer o

on_row_inv :
    (m : Option Opportunity) (f : Opportunity → DedupResult) (d : DedupResult)
    → on_row m f ≡ some d
    → (o : Opportunity) × (m ≡ some o) × (f o ≡ d)
unfolding on_row
on_row_inv none f d h = absurd (ground arith)
on_row_inv (some o) f d h = (o, refl, some-injective (f o) d h)

unless_conflict_inv :
    (st : Setting) (r : Record) (m : Option Opportunity) (o : Opportunity)
    → unless_conflict st r m ≡ some o
    → (m ≡ some o) × (conflicts_with st r o ≡ false)
unfolding unless_conflict
unless_conflict_inv st r none o h = absurd (ground arith)
unless_conflict_inv st r (some x) o h = elim (Bool-cases (conflicts_with st r x)) [
  | inl e ↦ absurd (ground arith)
  | inr e ↦
      let p : some x ≡ some o = rw e at h in
      (p, subst (λ z. conflicts_with st r z ≡ false) (some-injective x o p) e)
]

by_layer1-IsAbout :
    (st : Setting) (r : Record) (db : List Opportunity) (d : DedupResult)
    → by_layer1 r db ≡ some d
    → IsAbout st r db d
unfolding by_layer1
by_layer1-IsAbout st r db d h =
    let (o, q, e) = on_row_inv (layer1_row r db) (found exact_match reference 990) d h in
    let (m, fits) = row1 r db o q in subst (IsAbout st r db) e (o, m, refl, fits)

by_layer2-IsAbout :
    (st : Setting) (r : Record) (db : List Opportunity) (d : DedupResult)
    → by_layer2 st r db ≡ some d
    → IsAbout st r db d
unfolding by_layer2
by_layer2-IsAbout st r db d h =
    let (o, q, e) =
      on_row_inv (unless_conflict st r (layer2_row r db)) (found exact_match content 1000) d h in
    let (q', free) = unless_conflict_inv st r (layer2_row r db) o q in
    let (m, fits) = row2 r db o q' in subst (IsAbout st r db) e (o, m, refl, (fits, free))

layer3_decision-same :
    (r : Record) (o : Opportunity)
    → is_duplicate (layer3_decision r o).0 ≡ true
    → SharesScope r o × (differs r.municipality_id o.municipality_id ≡ false)
unfolding layer3_decision
layer3_decision-same r o h = ground arith

by_layer3-IsAbout :
    (st : Setting) (r : Record) (db : List Opportunity) (d : DedupResult)
    → by_layer3 st r db ≡ some d
    → IsAbout st r db d
unfolding by_layer3
by_layer3-IsAbout st r db d h =
    let (o, q, e) =
      on_row_inv (unless_conflict st r (layer3_row r db))
        (λ x.
          let (decision, confidence) = layer3_decision r x in
          found decision fingerprint confidence x)
        d h in
    let (q', free) = unless_conflict_inv st r (layer3_row r db) o q in
    let (m, fits) = row3 r db o q' in
    subst (IsAbout st r db) e (o, m, refl, (fits, free, layer3_decision-same r o))

by_layer4-IsAbout :
    (st : Setting) (r : Record) (db : List Opportunity) (d : DedupResult)
    → by_layer4 st r db ≡ some d
    → IsAbout st r db d
unfolding by_layer4
by_layer4-IsAbout st r db d h =
    let (o, q, e) =
      on_row_inv (layer4_row st r db)
        (λ x. found (layer4_decision st r x) trigram ((score st r x + 500) / 1000) x) d
        (enabled st.enable_fuzzy _ d h) in
    let (m, fits) = row4 st r db o q in subst (IsAbout st r db) e (o, m, refl, fits)

chain_cases :
    (a b c e : Option DedupResult) (z : DedupResult)
    → let d = result_or (or_try a (or_try b (or_try c e))) z in
      (a ≡ some d)
      ⊎ (b ≡ some d)
      ⊎ (c ≡ some d)
      ⊎ (e ≡ some d)
      ⊎ ((d ≡ z) × (a ≡ none) × (b ≡ none) × (c ≡ none) × (e ≡ none))
chain_cases (some x) b c e z = inl refl
chain_cases none (some x) c e z = inr (inl refl)
chain_cases none none (some x) e z = inr (inr (inl refl))
chain_cases none none none (some x) z = inr (inr (inr (inl refl)))
chain_cases none none none none z = inr (inr (inr (inr (refl, refl, refl, refl, refl))))

-- The result either is `NEW`, with no row, or names a stored row together with the evidence of the
-- layer that found it: for layer 1 the reference and the issuer's scope; for layer 2 the content
-- hash and the source, and no conflicting reference; for layer 3 the fingerprint and no conflicting
-- reference, and if it counts as a duplicate a shared source or municipality and no second known municipality; for
-- layer 4 all conditions of the fuzzy query.
pub find_duplicate_sound :
    (st : Setting) (r : Record) (db : List Opportunity)
    → (find_duplicate st r db ≡ no_match) ⊎ IsAbout st r db (find_duplicate st r db)
unfolding find_duplicate
find_duplicate_sound st r db =
    elim (chain_cases (by_layer1 r db) (by_layer2 st r db) (by_layer3 st r db) (by_layer4 st r db)
      no_match) [
        | inl h ↦ inr (by_layer1-IsAbout st r db _ h)
        | inr (inl h) ↦ inr (by_layer2-IsAbout st r db _ h)
        | inr (inr (inl h)) ↦ inr (by_layer3-IsAbout st r db _ h)
        | inr (inr (inr (inl h))) ↦ inr (by_layer4-IsAbout st r db _ h)
        | inr (inr (inr (inr h))) ↦ inl h.0
      ]

Evidence-SharesScope :
    (st : Setting) (r : Record) (o : Opportunity) (d : DuplicateDecision) (l : Layer)
    → is_duplicate d ≡ true
    → Evidence st r d l o
    → SharesScope r o
unfolding fuzzy_fits
Evidence-SharesScope st r o d reference dup h = elim (Bool-cases (is_some r.municipality_id)) [
  | inl known ↦ inr (known, ground arith)
  | inr unknown ↦ inl (ground arith)
]
Evidence-SharesScope st r o d content dup h = inl (ground arith)
Evidence-SharesScope st r o d fingerprint dup h = (h.2 dup).0
Evidence-SharesScope st r o d trigram dup h = inl (ground arith)
Evidence-SharesScope st r o d none_matched dup h = absurd h

no_match-not_duplicate : (d : DedupResult) → d ≡ no_match → is_duplicate d.decision ≡ false
unfolding no_match
no_match-not_duplicate d h = rw h

abbrev pub is_content : Layer → Bool
is_content content = true
is_content _ = false

Evidence-municipality :
    (st : Setting) (r : Record) (o : Opportunity) (d : DuplicateDecision) (l : Layer)
    → is_duplicate d ≡ true
    → Evidence st r d l o
    → is_content l ≡ false
    → differs r.municipality_id o.municipality_id ≡ false
unfolding fuzzy_fits
Evidence-municipality st r o d reference dup h c = ground (arith, h)
Evidence-municipality st r o d content dup h c = absurd (ground arith)
Evidence-municipality st r o d fingerprint dup h c = (h.2 dup).1
Evidence-municipality st r o d trigram dup h c = ground (arith, h)
Evidence-municipality st r o d none_matched dup h c = absurd h

-- Whatever is merged shares the record's source or its known municipality, and, unless the content hash
-- is what matched, the row's municipality is not another known one than the record's.
pub merged-SharesScope :
    (st : Setting) (r : Record) (db : List Opportunity)
    → is_duplicate (find_duplicate st r db).decision ≡ true
    → (o : Opportunity) × Memᴰ o db
      × ((find_duplicate st r db).existing_id ≡ some o.id)
      × SharesScope r o
      × (is_content (find_duplicate st r db).layer ≡ false
          → differs r.municipality_id o.municipality_id ≡ false)
merged-SharesScope st r db h = elim (find_duplicate_sound st r db) [
  | inl fresh ↦ absurd (ground (arith, no_match-not_duplicate (find_duplicate st r db) fresh))
  | inr (o, m, e, because) ↦ (
    o,
    m,
    e,
    Evidence-SharesScope st r o _ _ h because,
    λ c. Evidence-municipality st r o _ _ h because c,
  )
]

-- A row in the issuer's scope with the record's reference, normalized or raw, is always found,
-- with certainty, before any other layer is asked.
pub find_duplicate_reference :
    (st : Setting) (r : Record) (db : List Opportunity) (o : Opportunity)
    → Memᴰ o db
    → layer1_fits r o ≡ true
    → is_blank (or_else r.reference_number_normalized (raw_reference r.fields)) ≡ false
    → ((find_duplicate st r db).decision ≡ exact_match)
      × ((find_duplicate st r db).layer ≡ reference)
unfolding find_duplicate by_layer1 layer1_row found on_row
find_duplicate_reference st r db o m h given =
    let (x, e) = first_complete (layer1_fits r) db o m h in rw (given, e) (refl, refl)
