-- ===== src/ApiKey/Scopes.antt =====
-- app/services/api_key_service.py: what `parse_scopes` can return.
use tenderbase_api.Prelude.{
  Bool-cases, Option-cases, length, All, Result, Result-cases, ok, err, ◌≤◌, ◌≡◌, refl, subst, inl,
  inr, true, ◌||◌, Option, none, some, some-injective, List, [], ◌∷◌, ◌++◌, arith,
}
use tenderbase_api.Prelude.Text.{Text, Unicode, codes, text_eq, text_eq_refl, elem}
use tenderbase_api.ApiKey.{
  resolve_preset, KeyError, invalid_scope, admin, all_read_scopes, api_key_scopes, preset,
  add_scope, add_scopes, resolve_one, resolve, parts, some_scope, parse_scopes,
}

abbrev as_ok : List Text → Result KeyError (List Text)
as_ok x = ok x

ok-injective : (x y : List Text) → as_ok x ≡ as_ok y → x ≡ y
ok-injective x y e = ground (arith, e)

err_not_ok : (x : KeyError) (y : List Text) → err x ≡ as_ok y → ⊥
err_not_ok x y e = absurd (ground (arith, e))

abbrev pub IsKnown : Text → Type 0
IsKnown s = elem s api_key_scopes ≡ true

All-append :
    (P : Text → Type 0) (xs : List Text) (s : Text) → All P xs → P s → All P (xs ++ (s ∷ []))
All-append P [] s h k = (k, tt)
All-append P (x ∷ xs) s h k = (h.0, All-append P xs s h.1 k)

add_scope-IsKnown :
    (s : Text) (xs : List Text) → All IsKnown xs → IsKnown s → All IsKnown (add_scope s xs)
add_scope-IsKnown s xs h k = elim (Bool-cases (elem s xs)) [
  | inl e ↦ rw e h
  | inr e ↦ rw e (All-append IsKnown xs s h k)
]

add_scopes-IsKnown :
    (ss xs : List Text) → All IsKnown xs → All IsKnown ss → All IsKnown (add_scopes ss xs)
add_scopes-IsKnown [] xs h k = h
add_scopes-IsKnown (s ∷ ss) xs h k =
    add_scopes-IsKnown ss (add_scope s xs) (add_scope-IsKnown s xs h k.0) k.1

IsKnown-of : (ss scopes : List Text) → some ss ≡ some scopes → All IsKnown ss → All IsKnown scopes
IsKnown-of ss scopes e h = subst (All IsKnown) (some-injective ss scopes e) h

preset-IsKnown : (name : Text) (scopes : List Text) → preset name ≡ some scopes → All IsKnown scopes
unfolding preset
preset-IsKnown name scopes h = elim (Bool-cases (text_eq name (codes "readonly"))) [
  | inl a ↦ IsKnown-of _ scopes (rw a at h) (refl, (refl, (refl, (refl, (refl, tt)))))
  | inr a ↦ elim (Bool-cases (text_eq name (codes "tenders"))) [
    | inl b ↦ IsKnown-of _ scopes (rw (a, b) at h) (refl, tt)
    | inr b ↦ elim (Bool-cases (text_eq name (codes "sources"))) [
      | inl c ↦ IsKnown-of _ scopes (rw (a, b, c) at h) (refl, (refl, tt))
      | inr c ↦ elim (Bool-cases (text_eq name admin)) [
        | inl d ↦ IsKnown-of _ scopes (rw (a, b, c, d) at h) (refl, tt)
        | inr d ↦ let n : none ≡ some scopes = rw (a, b, c, d) at h in absurd (ground arith)
      ]
    ]
  ]
]

ok_of : (xs ys : List Text) → as_ok xs ≡ ok ys → All IsKnown xs → All IsKnown ys
ok_of xs ys e h = subst (All IsKnown) (ok-injective xs ys e) h

resolve_one-IsKnown :
    (u : Unicode) (v : Text) (xs ys : List Text)
    → All IsKnown xs
    → resolve_one u v xs ≡ ok ys
    → All IsKnown ys
unfolding resolve_one
resolve_one-IsKnown u v xs ys h e = elim (Option-cases (preset (u.lower v))) [
  | inl a ↦ elim (Bool-cases (elem v api_key_scopes)) [
    | inl b ↦ ok_of (add_scope v xs) ys (rw (a, b) at e) (add_scope-IsKnown v xs h b)
    | inr b ↦ absurd (err_not_ok invalid_scope ys (rw (a, b) at e))
  ]
  | inr (ss, a) ↦
      ok_of (add_scopes ss xs) ys (rw a at e)
        (add_scopes-IsKnown ss xs h (preset-IsKnown (u.lower v) ss a))
]

resolve-IsKnown :
    (u : Unicode) (vs xs ys : List Text) → All IsKnown xs → resolve u vs xs ≡ ok ys → All IsKnown ys
unfolding resolve
resolve-IsKnown u [] xs ys h e = ok_of xs ys e h
resolve-IsKnown u (v ∷ vs) xs ys h e = elim (Result-cases (resolve_one u v xs)) [
  | inl (zs, a) ↦ resolve-IsKnown u vs zs ys (resolve_one-IsKnown u v xs zs h a) (rw a at e)
  | inr (x, a) ↦ absurd (err_not_ok x ys (rw a at e))
]

some_scope-ok : (xs ys : List Text) → some_scope xs ≡ ok ys → (xs ≡ ys) × (1 ≤ length ys)
some_scope-ok [] ys e = absurd (err_not_ok invalid_scope ys e)
some_scope-ok (x ∷ xs) ys e =
    let p = ok-injective (x ∷ xs) ys e in (p, subst (λ zs. 1 ≤ length zs) p (omega arith))

-- The scope is among those of the key.
abbrev pub IsGranted : List Text → Text → Type 0
IsGranted scopes s = elem s scopes ≡ true

elem-append : (t s : Text) (xs : List Text) → elem t (xs ++ (s ∷ [])) ≡ (elem t xs || text_eq t s)
elem-append t s [] = ground arith
elem-append t s (x ∷ xs) = rw (elem-append t s xs) (ground arith)

add_scope-keeps : (s t : Text) (xs : List Text) → IsGranted xs t → IsGranted (add_scope s xs) t
add_scope-keeps s t xs h = elim (Bool-cases (elem s xs)) [
  | inl e ↦ rw e h
  | inr e ↦ rw (e, elem-append t s xs) (ground (arith, h))
]

add_scope-adds : (s : Text) (xs : List Text) → IsGranted (add_scope s xs) s
add_scope-adds s xs = elim (Bool-cases (elem s xs)) [
  | inl e ↦ rw e e
  | inr e ↦ rw (e, elem-append s s xs) (ground (arith, text_eq_refl s))
]

add_scopes-keeps :
    (ss : List Text) (t : Text) (xs : List Text) → IsGranted xs t → IsGranted (add_scopes ss xs) t
add_scopes-keeps [] t xs h = h
add_scopes-keeps (s ∷ ss) t xs h = add_scopes-keeps ss t (add_scope s xs) (add_scope-keeps s t xs h)

add_scopes-adds : (ss xs : List Text) → All (IsGranted (add_scopes ss xs)) ss
add_scopes-adds [] xs = tt
add_scopes-adds (s ∷ ss) xs = (
  add_scopes-keeps ss s (add_scope s xs) (add_scope-adds s xs),
  add_scopes-adds ss (add_scope s xs),
)

-- A part of the text is served, by what the presets say of its name: all scopes of the preset are
-- granted, or the part is itself a scope and is granted.
pub IsServed : List Text → Option (List Text) → Text → Type 0
IsServed scopes none part = IsGranted scopes part
IsServed scopes (some ss) part = All (IsGranted scopes) ss

-- Every scope of the one list is in the other.
abbrev Keeps : List Text → List Text → Type 0
Keeps xs ys = (t : Text) → IsGranted xs t → IsGranted ys t

All-Keeps : (xs ys ss : List Text) → Keeps xs ys → All (IsGranted xs) ss → All (IsGranted ys) ss
All-Keeps xs ys [] k h = tt
All-Keeps xs ys (s ∷ ss) k h = (k s h.0, All-Keeps xs ys ss k h.1)

IsServed-Keeps :
    (xs ys : List Text) (p : Option (List Text)) (part : Text)
    → Keeps xs ys
    → IsServed xs p part
    → IsServed ys p part
unfolding IsServed
IsServed-Keeps xs ys none part k h = k part h
IsServed-Keeps xs ys (some ss) part k h = All-Keeps xs ys ss k h

resolve_preset-IsServed :
    (p : Option (List Text)) (v : Text) (xs ys : List Text)
    → resolve_preset p v xs ≡ ok ys
    → IsServed ys p v × Keeps xs ys
unfolding IsServed
resolve_preset-IsServed (some ss) v xs ys e =
    let q = ok-injective (add_scopes ss xs) ys e in
    (
      subst (λ zs. All (IsGranted zs) ss) q (add_scopes-adds ss xs),
      λ t h. subst (λ zs. IsGranted zs t) q (add_scopes-keeps ss t xs h),
    )
resolve_preset-IsServed none v xs ys e = elim (Bool-cases (elem v api_key_scopes)) [
  | inl b ↦
      let q = ok-injective (add_scope v xs) ys (rw b at e) in
      (
        subst (λ zs. IsGranted zs v) q (add_scope-adds v xs),
        λ t h. subst (λ zs. IsGranted zs t) q (add_scope-keeps v t xs h),
      )
  | inr b ↦ absurd (err_not_ok invalid_scope ys (rw b at e))
]

-- Every part is served.
abbrev pub AllServed : Unicode → List Text → List Text → Type 0
AllServed u scopes vs = All (λ v. IsServed scopes (preset (u.lower v)) v) vs

resolve-AllServed :
    (u : Unicode) (vs xs ys : List Text) → resolve u vs xs ≡ ok ys → AllServed u ys vs × Keeps xs ys
unfolding resolve resolve_one
resolve-AllServed u [] xs ys e = (tt, λ t h. subst (λ zs. IsGranted zs t) (ok-injective xs ys e) h)
resolve-AllServed u (v ∷ vs) xs ys e =
    elim (Result-cases (resolve_preset (preset (u.lower v)) v xs)) [
      | inl (zs, a) ↦
          let (served, grown) = resolve_preset-IsServed (preset (u.lower v)) v xs zs a in
          let (more, kept) = resolve-AllServed u vs zs ys (rw a at e) in
          (
            (IsServed-Keeps zs ys (preset (u.lower v)) v kept served, more),
            λ t h. kept t (grown t h),
          )
      | inr (x, a) ↦ absurd (err_not_ok x ys (rw a at e))
    ]

-- The parts of what an operator passes, between its commas, stripped and not empty.
abbrev pub parts_of : Unicode → Option (List Text) → List Text
parts_of u none = []
parts_of u (some values) = parts u values

-- Whatever text an operator passes, the scopes that are accepted are known ones, there is at least one,
-- and no part of the text is dropped: each is a scope that is granted, or a preset all of whose scopes
-- are. A misspelt scope never makes a key with fewer scopes.
pub parse_scopes-IsKnown :
    (u : Unicode) (values : Option (List Text)) (scopes : List Text)
    → parse_scopes u values ≡ ok scopes
    → All IsKnown scopes × (1 ≤ length scopes) × AllServed u scopes (parts_of u values)
unfolding parse_scopes
parse_scopes-IsKnown u none scopes e =
    let p = ok-injective all_read_scopes scopes e in
    (
      subst (All IsKnown) p (refl, (refl, (refl, (refl, (refl, tt))))),
      subst (λ zs. 1 ≤ length zs) p (omega arith),
      tt,
    )
parse_scopes-IsKnown u (some values) scopes e =
    elim (Result-cases (resolve u (parts u values) [])) [
      | inl (zs, a) ↦
          let (p, n) = some_scope-ok zs scopes (rw a at e) in
          (
            subst (All IsKnown) p (resolve-IsKnown u (parts u values) [] zs tt a),
            n,
            subst (λ ys. AllServed u ys (parts u values)) p
                (resolve-AllServed u (parts u values) [] zs a).0,
          )
      | inr (x, a) ↦ absurd (err_not_ok x scopes (rw a at e))
    ]
