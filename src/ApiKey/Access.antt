-- ===== src/ApiKey/Access.antt =====
-- app/services/api_key_service.py: whom `verify` lets in, and that a revocation is final.
use mathlib.Core.List.{Memᴰ}
use tenderbase_api.Prelude.{
  ltb, ◌==◌, ==_iff, Bool-cases, Option-cases, le_of_not_ltb, length, first, All, Result, ok, err,
  ℕ, ◌≤◌, ◌≡◌, refl, sym, subst, ◌≢◌, inl, inr, true, false, Option, List, [], ◌∷◌, arith,
}
use tenderbase_api.Prelude.Text.{Text, text_eq}
use tenderbase_api.Enums.{ApiKeyStatus}
use tenderbase_api.Ingestion.Dedup.Lists.{first_sound}
use tenderbase_api.ApiKey.{
  KeyError, not_found, ApiKey, grants_required, has_expired, replace_key, is_active, is_revoked,
  verify_row, verify, touch, revoke, revoked_key, key_revoked, key_missing, key_expired,
  key_invalid, key_inactive, insufficient_scope,
}

abbrev as_ok : ApiKey → Result KeyError ApiKey
as_ok x = ok x

ok-injective : (x y : ApiKey) → as_ok x ≡ as_ok y → x ≡ y
ok-injective x y e = ground (arith, e)

err_not_ok : (x : KeyError) (y : ApiKey) → err x ≡ as_ok y → ⊥
err_not_ok x y e = absurd (ground (arith, e))

-- What an accepted key satisfies.
abbrev pub IsAccepted : (Text → Text) → ℕ → Text → Option Text → ApiKey → Type 0
IsAccepted digest now raw required k =
    (text_eq k.key_hash (digest raw) ≡ true)
    × (20 ≤ length raw)
    × (is_active k.status ≡ true)
    × (has_expired now k.expires_at ≡ false)
    × (grants_required k required ≡ true)

verify_row-IsAccepted :
    (now : ℕ) (required : Option Text) (k k' : ApiKey) (keys : List ApiKey)
    → (verify_row now required k keys).0 ≡ ok k'
    → (k ≡ k')
      × (is_active k.status ≡ true)
      × (has_expired now k.expires_at ≡ false)
      × (grants_required k required ≡ true)
unfolding verify_row
verify_row-IsAccepted now required k k' keys h = elim (Bool-cases (is_revoked k.status)) [
  | inl a ↦ absurd (err_not_ok key_revoked k' (rw a at h))
  | inr a ↦ elim (Bool-cases (has_expired now k.expires_at)) [
    | inl b ↦ absurd (err_not_ok key_expired k' (rw (a, b) at h))
    | inr b ↦ elim (Bool-cases (is_active k.status)) [
      | inr c ↦ absurd (err_not_ok key_inactive k' (rw (a, b, c) at h))
      | inl c ↦ elim (Bool-cases (grants_required k required)) [
        | inr d ↦ absurd (err_not_ok insufficient_scope k' (rw (a, b, c, d) at h))
        | inl d ↦ (ok-injective k k' (rw (a, b, c, d) at h), c, b, d)
      ]
    ]
  ]
]

-- A key that `verify` returns is a stored one, has the digest of the raw key, which has at least 20
-- characters, is ACTIVE and not expired, and grants the required scope, if there is one.
pub verify-IsAccepted :
    (digest : Text → Text) (now : ℕ) (raw : Text) (required : Option Text) (keys : List ApiKey)
    (k : ApiKey)
    → (verify digest now raw required keys).0 ≡ ok k
    → Memᴰ k keys × IsAccepted digest now raw required k
unfolding verify
verify-IsAccepted digest now raw required keys k h = elim (Bool-cases (ltb (length raw) 20)) [
  | inl a ↦ absurd (err_not_ok key_missing k (rw a at h))
  | inr a ↦ elim (Option-cases (first (λ x. text_eq x.key_hash (digest raw)) keys)) [
    | inl e ↦ absurd (err_not_ok key_invalid k (rw (a, e) at h))
    | inr (x, e) ↦
        let (m, f) = first_sound (λ y. text_eq y.key_hash (digest raw)) keys x e in
        let (p, q, o, g) = verify_row-IsAccepted now required x k keys (rw (a, e) at h) in
        subst (λ y. Memᴰ y keys × IsAccepted digest now raw required y) p
          (m, (f, le_of_not_ltb (length raw) 20 a, q, o, g))
  ]
]

-- The operations on the table of keys; `touch` gets a stored key.
pub data Step (keys : List ApiKey) : List ApiKey → Type 0 where
  verified :
      (digest : Text → Text) (now : ℕ) (raw : Text) (required : Option Text)
      → Step keys (verify digest now raw required keys).1
  touched :
      (now : ℕ) (ip : Option Text) (k : ApiKey) → Memᴰ k keys → Step keys (touch now ip k keys)
  revoked_one :
      (now id : ℕ) (reason : Option Text) (keys' : List ApiKey)
      → revoke now id reason keys ≡ ok keys'
      → Step keys keys'

pub data Reach (keys : List ApiKey) : List ApiKey → Type 0 where
  here : Reach keys keys
  next : {ks ls : List ApiKey} → Reach keys ks → Step ks ls → Reach keys ls

abbrev IsOut : ℕ → ApiKey → Type 0
IsOut id k = k.id ≡ id → is_revoked k.status ≡ true

replace_key-IsOut :
    (id : ℕ) (k : ApiKey) (xs : List ApiKey)
    → IsOut id k
    → All (IsOut id) xs
    → All (IsOut id) (replace_key k xs)
unfolding replace_key
replace_key-IsOut id k [] p h = tt
replace_key-IsOut id k (x ∷ xs) p h = elim (Bool-cases (x.id == k.id)) [
  | inl e ↦ rw e (p, replace_key-IsOut id k xs p h.1)
  | inr e ↦ rw e (h.0, replace_key-IsOut id k xs p h.1)
]

-- Replacing the key itself by a revoked one.
replace_key-first :
    (k : ApiKey) (xs : List ApiKey)
    → is_revoked k.status ≡ true
    → All (IsOut k.id) (replace_key k xs)
unfolding replace_key
replace_key-first k [] p = tt
replace_key-first k (x ∷ xs) p = elim (Bool-cases (x.id == k.id)) [
  | inl e ↦ rw e ((λ q. p), replace_key-first k xs p)
  | inr e ↦ rw e ((λ q. absurd (ground (arith, e, q))), replace_key-first k xs p)
]

All-mem : {A : Type 0} (P : A → Type 0) (x : A) (xs : List A) → Memᴰ x xs → All P xs → P x
All-mem P x [] m h = elim m [ ]
All-mem P x (y ∷ ys) (Memᴰ.head e) h = subst P (sym e) h.0
All-mem P x (y ∷ ys) (Memᴰ.tail m) h = All-mem P x ys m h.1

verify_row-IsOut :
    (id now : ℕ) (required : Option Text) (k : ApiKey) (keys : List ApiKey)
    → IsOut id k
    → All (IsOut id) keys
    → All (IsOut id) (verify_row now required k keys).1
unfolding verify_row
verify_row-IsOut id now required k keys p h = elim (Bool-cases (is_revoked k.status)) [
  | inl a ↦ rw a h
  | inr a ↦ elim (Bool-cases (has_expired now k.expires_at)) [
    | inl b ↦
        rw (a, b)
          (replace_key-IsOut id (record k { status = ApiKeyStatus.expired }) keys
            (λ q. absurd (ground (arith, a, p q))) h)
    | inr b ↦
        rw (a, b)
          (elim (Bool-cases (is_active k.status)) [
            | inr c ↦ rw c h
            | inl c ↦ elim (Bool-cases (grants_required k required)) [
              | inl d ↦ rw (c, d) h
              | inr d ↦ rw (c, d) h
            ]
          ])
  ]
]

verify-IsOut :
    (id : ℕ) (digest : Text → Text) (now : ℕ) (raw : Text) (required : Option Text)
    (keys : List ApiKey)
    → All (IsOut id) keys
    → All (IsOut id) (verify digest now raw required keys).1
unfolding verify
verify-IsOut id digest now raw required keys h = elim (Bool-cases (ltb (length raw) 20)) [
  | inl a ↦ rw a h
  | inr a ↦ elim (Option-cases (first (λ x. text_eq x.key_hash (digest raw)) keys)) [
    | inl e ↦ rw (a, e) h
    | inr (x, e) ↦
        rw (a, e)
          (verify_row-IsOut id now required x keys
            (All-mem (IsOut id) x keys
              (first_sound (λ y. text_eq y.key_hash (digest raw)) keys x e).0 h)
            h)
  ]
]

abbrev as_list : List ApiKey → Result KeyError (List ApiKey)
as_list x = ok x

list-injective : (x y : List ApiKey) → as_list x ≡ as_list y → x ≡ y
list-injective x y e = ground (arith, e)

err_not_list : (x : KeyError) (y : List ApiKey) → err x ≡ as_list y → ⊥
err_not_list x y e = absurd (ground (arith, e))

active_not_revoked : (s : ApiKeyStatus) → is_active s ≡ true → is_revoked s ≡ true → ⊥
active_not_revoked ApiKeyStatus.active a r = absurd (ground (arith, r))
active_not_revoked ApiKeyStatus.revoked a r = absurd (ground (arith, a))
active_not_revoked ApiKeyStatus.expired a r = absurd (ground (arith, a))

revoke-cases :
    (now id : ℕ) (reason : Option Text) (keys ks : List ApiKey)
    → revoke now id reason keys ≡ ok ks
    → (k : ApiKey) × (k.id ≡ id) × (ks ≡ replace_key (revoked_key now reason k) keys)
unfolding revoke
revoke-cases now id reason keys ks h = elim (Option-cases (first (λ k. k.id == id) keys)) [
  | inl e ↦ absurd (err_not_list not_found ks (rw e at h))
  | inr (k, e) ↦ (
    k,
    (==_iff k.id id).0 (first_sound (λ x. x.id == id) keys k e).1,
    sym (list-injective (replace_key (revoked_key now reason k) keys) ks (rw e at h)),
  )
]

Step-IsOut : {ks ls : List ApiKey} (id : ℕ) → Step ks ls → All (IsOut id) ks → All (IsOut id) ls
unfolding touch
Step-IsOut {ks} id (verified digest now raw required) h =
    verify-IsOut id digest now raw required ks h
Step-IsOut {ks} id (touched now ip k m) h =
    replace_key-IsOut id _ ks (All-mem (IsOut id) k ks m h) h
Step-IsOut {ks} {ls} id (revoked_one now other reason ls' e) h =
    let (k, p, q) = revoke-cases now other reason ks ls' e in
    subst (All (IsOut id)) (sym q)
      (replace_key-IsOut id (revoked_key now reason k) ks (λ w. refl) h)

Reach-IsOut : {ks ls : List ApiKey} (id : ℕ) → Reach ks ls → All (IsOut id) ks → All (IsOut id) ls
Reach-IsOut id here h = h
Reach-IsOut id (next r s) h = Step-IsOut id s (Reach-IsOut id r h)

-- A revocation is final: after the key with this identifier is revoked, and whatever verifications,
-- uses and revocations follow, `verify` never again returns a key with that identifier.
pub revoke_final :
    (now id : ℕ) (reason : Option Text) (keys ks ls : List ApiKey)
    → revoke now id reason keys ≡ ok ks
    → Reach ks ls
    → (digest : Text → Text) (later : ℕ) (raw : Text) (required : Option Text) (k : ApiKey)
    → (verify digest later raw required ls).0 ≡ ok k
    → k.id ≢ id
revoke_final now id reason keys ks ls e r digest later raw required k v same =
    let (old, p, q) = revoke-cases now id reason keys ks e in
    let out : All (IsOut id) ks = subst (All (IsOut id)) (sym q) (
      subst (λ z. All (IsOut z) (replace_key (revoked_key now reason old) keys)) p
        (replace_key-first (revoked_key now reason old) keys refl)) in
    let (m, (f, n, active, o, g)) = verify-IsAccepted digest later raw required ls k v in
    active_not_revoked k.status active (All-mem (IsOut id) k ls m (Reach-IsOut id r out) same)
