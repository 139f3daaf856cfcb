-- ===== src/Urls/Safety.antt =====
-- app/utils/urls.py: what a URL that passes the check has, its resolved addresses included.
use tenderbase_api.Prelude.{
  ◌==◌, if◌then◌else◌, Bool-cases, Option-cases, any, All, Result, ◌>>=◌, ok, err, ℕ, ◌≡◌, refl,
  sym, subst, ◌≢◌, ◌⊎◌, inl, inr, Bool, true, false, not, Option, none, some, List, [], ◌∷◌, arith,
}
use tenderbase_api.Prelude.Text.{Text, is_empty, elem}
use tenderbase_api.Urls.{
  Ip, UrlLib, first_bad, is_disallowed_ip, is_ok, Reason, UrlCheck, reason_of, rejected, resolved,
  restricted_range, unparseable_address, Parts, UrlError, allowed_schemes, bad_port, by_literal,
  by_name, check_parts, check_port, is_loopback_name, text_or_empty, missing_host,
  scheme_not_allowed, validate_url, bad_url, check_candidate, credentials, empty_url, normalize_url,
  rejected_or_raised, value_error,
}

-- An address that may be contacted.
abbrev pub IsPublic : UrlLib → Text → Type 0
IsPublic lib raw = (ip : Ip) × (lib.ip_address raw ≡ some ip) × (is_disallowed_ip ip ≡ false)

-- The host is a public address, or a name with addresses that are all public.
abbrev pub IsPublicHost : UrlLib → Text → List Text → Type 0
IsPublicHost lib host ips =
    IsPublic lib host ⊎ (lib.getaddrinfo host ≡ ips × ips ≢ [] × All (IsPublic lib) ips)

abbrev pub HasPort : List ℕ → Option ℕ → Type 0
HasPort allowed none = Unit
HasPort allowed (some p) = any (λ q. q == p) allowed ≡ true

abbrev some_reason : Reason → Option Reason
some_reason r = some r

reason_of-none :
    (lib : UrlLib) (raw : Text) → reason_of (lib.ip_address raw) ≡ none → IsPublic lib raw
reason_of-none lib raw h = elim (Option-cases (lib.ip_address raw)) [
  | inl y ↦ absurd (some_not_none unparseable_address (rw y at h))
  | inr (ip, y) ↦ elim (Bool-cases (is_disallowed_ip ip)) [
    | inl z ↦ absurd (some_not_none restricted_range (rw (y, z) at h))
    | inr z ↦ (ip, y, z)
  ]
]
  where
    some_not_none : (r : Reason) → some_reason r ≡ none → ⊥
    some_not_none r e = absurd (ground (arith, e))

first_bad-none :
    (lib : UrlLib) (ips : List Text) → first_bad lib ips ≡ none → All (IsPublic lib) ips
unfolding first_bad
first_bad-none lib [] h = tt
first_bad-none lib (raw ∷ ips) h = elim (Option-cases (reason_of (lib.ip_address raw))) [
  | inl y ↦ (reason_of-none lib raw y, first_bad-none lib ips (rw y at h))
  | inr (r, y) ↦ absurd (ground (arith, (rw y at h)))
]

-- A predicate of the checks that are ok.
abbrev pub Accepts : (UrlCheck → Type 0) → UrlCheck → Type 0
Accepts P c = is_ok c ≡ true → P c

cons_not_nil : (ip : Text) (ips : List Text) → ip ∷ ips ≢ []
cons_not_nil ip ips e = absurd (ground (arith, e))

abbrev HasPublicHost : UrlLib → Text → Text → UrlCheck → Type 0
HasPublicHost lib url host c =
    c.url ≡ url × c.host ≡ some host × IsPublicHost lib host c.resolved_ips

resolved-HasPublicHost :
    (lib : UrlLib) (url host : Text) (ips : List Text)
    → lib.getaddrinfo host ≡ ips
    → Accepts (HasPublicHost lib url host) (resolved lib url host ips)
resolved-HasPublicHost lib url host [] e h = absurd (ground arith)
resolved-HasPublicHost lib url host (ip ∷ ips) e h =
    elim (Option-cases (first_bad lib (ip ∷ ips))) [
      | inl y ↦ rw y (refl, refl, inr (e, cons_not_nil ip ips, first_bad-none lib (ip ∷ ips) y))
      | inr (r, y) ↦ absurd (ground (arith, (rw y at h)))
    ]

by_name-HasPublicHost :
    (lib : UrlLib) (url host : Text)
    → Accepts (HasPublicHost lib url host) (by_name lib true url host)
by_name-HasPublicHost lib url host h = elim (Bool-cases (is_loopback_name lib host)) [
  | inl y ↦ absurd (ground (arith, (rw y at h)))
  | inr y ↦ rw y (resolved-HasPublicHost lib url host (lib.getaddrinfo host) refl (rw y at h))
]

by_literal-HasPublicHost :
    (lib : UrlLib) (url host : Text) (later : UrlCheck)
    → Accepts (HasPublicHost lib url host) later
    → Accepts (HasPublicHost lib url host) (by_literal url host (lib.ip_address host) later)
by_literal-HasPublicHost lib url host later f h = elim (Option-cases (lib.ip_address host)) [
  | inl y ↦
      subst (λ x. HasPublicHost lib url host (by_literal url host x later)) (sym y) (f (rw y at h))
  | inr (ip, y) ↦ elim (Bool-cases (is_disallowed_ip ip)) [
    | inl z ↦ absurd (ground (arith, (rw (y, z) at h)))
    | inr z ↦
        subst (λ x. HasPublicHost lib url host (by_literal url host x later)) (sym y)
          (rw z (refl, refl, inl (ip, y, z)))
  ]
]

-- A checked URL: an allowed scheme and port, and a public host.
abbrev pub IsSafe : UrlLib → List ℕ → Text → Parts → UrlCheck → Type 0
IsSafe lib allowed url p c =
    elem p.scheme allowed_schemes ≡ true
    × ((port : Option ℕ) × (p.port ≡ ok port) × HasPort allowed port)
    × HasPublicHost lib url (text_or_empty p.hostname) c

bad_port-HasPort :
    (allowed : List ℕ) (port : Option ℕ) → bad_port allowed port ≡ none → HasPort allowed port
bad_port-HasPort allowed none h = tt
bad_port-HasPort allowed (some p) h = elim (Bool-cases (any (λ q. q == p) allowed)) [
  | inl y ↦ y
  | inr y ↦ absurd (ground (arith, (rw y at h)))
]

check_port-HasPublicHost :
    (lib : UrlLib) (allowed : List ℕ) (url host : Text) (port : Option ℕ)
    → Accepts
        (λ c. HasPort allowed port × HasPublicHost lib url host c)
        (check_port lib false true allowed url host port)
check_port-HasPublicHost lib allowed url host port h = elim (Option-cases (bad_port allowed port)) [
  | inl y ↦ rw y (
    bad_port-HasPort allowed port y,
    by_literal-HasPublicHost lib url host (by_name lib true url host)
        (by_name-HasPublicHost lib url host) (rw y at h),
  )
  | inr (r, y) ↦ absurd (ground (arith, (rw y at h)))
]

abbrev Answers : (UrlCheck → Type 0) → Result UrlError UrlCheck → Type 0
Answers P r = (c : UrlCheck) → r ≡ ok c → is_ok c ≡ true → P c

abbrev as_ok : {A : Type 0} → A → Result UrlError A
as_ok x = ok x

Answers-ok : (P : UrlCheck → Type 0) (x : UrlCheck) → Accepts P x → Answers P (ok x)
Answers-ok P x f c e h = subst P q (f (subst (λ z. is_ok z ≡ true) (sym q) h))
  where
    injective : (x y : UrlCheck) → as_ok x ≡ as_ok y → x ≡ y
    injective x y e = ground (arith, e)

    q : x ≡ c
    q = injective x c e

Answers-err : (P : UrlCheck → Type 0) (x : UrlError) → Answers P (err x)
Answers-err P x c e h = absurd (err_not_ok x c e)
  where
    err_not_ok : (x : UrlError) (y : UrlCheck) → err x ≡ as_ok y → ⊥
    err_not_ok x y e = absurd (ground (arith, e))

Answers-rejected :
    (P : UrlCheck → Type 0) (url : Text) (r : Reason) (host : Option Text) (ips : List Text)
    → Answers P (ok (rejected url r host ips))
Answers-rejected P url r host ips =
    Answers-ok P (rejected url r host ips) (λ h. absurd (ground (arith, h)))

Answers-if :
    (P : UrlCheck → Type 0) (b : Bool) (x y : Result UrlError UrlCheck)
    → (b ≡ true → Answers P x)
    → (b ≡ false → Answers P y)
    → Answers P (if b then x else y)
Answers-if P true x y f g = f refl
Answers-if P false x y f g = g refl

Answers-bind :
    {A : Type 0} (P : UrlCheck → Type 0) (r : Result UrlError A) (f : A → Result UrlError UrlCheck)
    → ((a : A) → r ≡ ok a → Answers P (f a))
    → Answers P (r >>= f)
Answers-bind P (ok a) f h = h a refl
Answers-bind P (err x) f h = Answers-err P x

true_of_not-false : (b : Bool) → not b ≡ false → b ≡ true
true_of_not-false b h = ground arith

check_parts-IsSafe :
    (lib : UrlLib) (allowed : List ℕ) (url : Text) (p : Parts)
    → Answers (IsSafe lib allowed url p) (check_parts lib false true allowed url p)
check_parts-IsSafe lib allowed url p =
    let P = IsSafe lib allowed url p in
    let host = text_or_empty p.hostname in
    Answers-if P (not (elem p.scheme allowed_schemes)) _ _
      (λ _. Answers-rejected P url scheme_not_allowed none [])
      λ s.
        Answers-if P (is_empty host) _ _ (λ _. Answers-rejected P url missing_host none [])
          λ _. Answers-bind P p.port _ λ port y.
            Answers-ok P (check_port lib false true allowed url host port) λ h.
              let (a, b) = check_port-HasPublicHost lib allowed url host port h in
              (true_of_not-false _ s, (port, y, a), b)

rejected_or_raised-Answers :
    (P : UrlCheck → Type 0) (value : Text) (e : UrlError) → Answers P (rejected_or_raised value e)
rejected_or_raised-Answers P value empty_url = Answers-rejected P value (bad_url empty_url) none []
rejected_or_raised-Answers P value credentials =
    Answers-rejected P value (bad_url credentials) none []
rejected_or_raised-Answers P value value_error = Answers-err P value_error

check_candidate-Answers :
    (lib : UrlLib) (allowed : List ℕ) (value : Text) (candidate : Result UrlError Text)
    → Answers
        (λ c. (p : Parts) × (lib.urlsplit c.url ≡ ok p) × IsSafe lib allowed c.url p c)
        (check_candidate lib false true allowed value candidate)
check_candidate-Answers lib allowed value (err e) = rejected_or_raised-Answers _ value e
check_candidate-Answers lib allowed value (ok url) =
    Answers-bind _ (lib.urlsplit url) _ λ p y c e h.
      let (a, b, q) = check_parts-IsSafe lib allowed url p c e h in
      (p, subst (λ z. lib.urlsplit z ≡ ok p) (sym q.0) y, (a, b, (refl, q.1, q.2)))

-- A URL that passes the check, with private networks not allowed, has an allowed scheme and port, and a
-- host that is a public address or resolves to addresses that are all public, at least one of them: the
-- addresses that the check reports.
pub validate_url-IsSafe :
    (lib : UrlLib) (allowed : List ℕ) (value : Text) (c : UrlCheck)
    → validate_url lib false true allowed value ≡ ok c
    → is_ok c ≡ true
    → (p : Parts) × (lib.urlsplit c.url ≡ ok p) × IsSafe lib allowed c.url p c
unfolding validate_url
validate_url-IsSafe lib allowed value =
    check_candidate-Answers lib allowed value (normalize_url lib none true value)
