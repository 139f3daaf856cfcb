-- ===== src/Auth/Admission.antt =====
-- app/api/auth.py: what a request that is let through has shown.
use mathlib.Core.List.{Memᴰ}
use tenderbase_api.Prelude.{
  ltb, if◌then◌else◌, Bool-cases, length, Result, Gives, Gives-implied, Gives-result, ok, err, ◌≡◌,
  refl, subst, ◌⊎◌, inl, inr, Bool, true, false, ◌||◌, Option, none, some,
}
use tenderbase_api.Prelude.Text.{Text}
use tenderbase_api.ApiKey.{ApiKey, KeyError, verify}
use tenderbase_api.ApiKey.Access.{IsAccepted, verify-IsAccepted}
use tenderbase_api.RateLimit.{InProcess, RateDecision, RateError}
use tenderbase_api.Auth.Scope.{required_scope_for}
use tenderbase_api.Auth.Request.{
  AuthError, Principal, Request, Service, State, admitted, api_access, touched, verified,
  authenticate, decision_for, extract_credentials, limit, principal_of, anonymous,
  database_unavailable,
}

-- The limiter is off, or it allowed the principal.
abbrev pub IsAllowed : Service → Request → Principal → State → Type 0
IsAllowed v r p s =
    (v.use_rate_limit ≡ false)
    ⊎ ((d : RateDecision) × (table : InProcess) × (decision_for v r p s.table ≡ ok (d, table))
        × d.allowed ≡ true)

admitted-IsAllowed :
    (v : Service) (r : Request) (p : Principal) (s : State)
    (x : Result RateError (RateDecision × InProcess))
    → decision_for v r p s.table ≡ x
    → Gives (λ q. q ≡ p × IsAllowed v r p s) (admitted p s x).0
admitted-IsAllowed v r p s (err x) e = tt
admitted-IsAllowed v r p s (ok (d, table)) e = elim (Bool-cases d.allowed) [
  | inl y ↦ rw y (refl, inr (d, table, e, y))
  | inr y ↦ rw y tt
]

Gives-if :
    (P : Principal → Type 0) (b : Bool) (x y : Result AuthError Principal × State)
    → (b ≡ true → Gives P x.0)
    → (b ≡ false → Gives P y.0)
    → Gives P (if b then x else y).0
Gives-if P true x y f g = f refl
Gives-if P false x y f g = g refl

limit-IsAllowed :
    (v : Service) (r : Request) (p : Principal) (s : State)
    → Gives (λ q. q ≡ p × IsAllowed v r p s) (limit v r p s).0
unfolding limit
limit-IsAllowed v r p s =
    Gives-if (λ q. q ≡ p × IsAllowed v r p s) v.use_rate_limit
      (admitted p s (decision_for v r p s.table)) (ok p, s)
      (λ _. admitted-IsAllowed v r p s (decision_for v r p s.table) refl) (λ off. (refl, inl off))

touched-Gives :
    (P : Principal → Type 0) (v : Service) (r : Request) (k : ApiKey)
    (o : Result AuthError Principal × State)
    → Gives P o.0
    → Gives P (touched v r k o).0
touched-Gives P v r k (err e, s) h = tt
touched-Gives P v r k (ok p, s) h = h

-- What the presented key shows.
abbrev pub HasShown : Service → Request → State → Text → ApiKey → Type 0
HasShown v r s raw k =
    Memᴰ k s.keys
    × IsAccepted v.digest v.now raw (required_scope_for v.unquote r.path) k
    × IsAllowed v r (principal_of k) s

verified-Gives :
    (v : Service) (r : Request) (s : State) (raw : Text) (x : Result KeyError ApiKey)
    → (verify v.digest v.now raw (required_scope_for v.unquote r.path) s.keys).0 ≡ x
    → Gives (λ p. (k : ApiKey) × (p ≡ principal_of k) × HasShown v r s raw k) (verified v r s x).0
verified-Gives v r s raw (err e) h = tt
verified-Gives v r s raw (ok k) h =
    let (m, a) =
      verify-IsAccepted v.digest v.now raw (required_scope_for v.unquote r.path) s.keys k h in
    touched-Gives (λ p. (k : ApiKey) × (p ≡ principal_of k) × HasShown v r s raw k) v r k
      (limit v r (principal_of k) s) (shown m a)
  where
    shown :
        Memᴰ k s.keys
        → IsAccepted v.digest v.now raw (required_scope_for v.unquote r.path) k
        → Gives
            (λ p. (k : ApiKey) × (p ≡ principal_of k) × HasShown v r s raw k)
            (limit v r (principal_of k) s).0
    shown m a =
        Gives-implied (limit v r (principal_of k) s).0 (limit-IsAllowed v r (principal_of k) s)
          λ q (e, allowed). (k, e, (m, a, allowed))

-- The presented key and what it shows.
abbrev IsAdmitted : Service → Request → State → Option Text → Principal → Type 0
IsAdmitted v r s credential p =
    (raw : Text) × (k : ApiKey) × (credential ≡ some raw)
    × (p ≡ principal_of k)
    × HasShown v r s raw k

authenticate-IsAdmitted :
    (v : Service) (r : Request) (s : State) (credential : Option Text)
    → Gives (IsAdmitted v r s credential) (authenticate v r s credential).0
authenticate-IsAdmitted v r s none = tt
authenticate-IsAdmitted v r s (some raw) =
    let found = (verify v.digest v.now raw (required_scope_for v.unquote r.path) s.keys).0 in
    Gives-if (IsAdmitted v r s (some raw)) (v.database || ltb (length raw) 20)
      (verified v r s found) (err database_unavailable, s)
      (λ _.
        Gives-implied (verified v r s found).0 (verified-Gives v r s raw found refl)
          λ p (k, e, h). (raw, k, refl, e, h))
      (λ _. tt)

-- Where keys are enforced, a request that is let through presents a key that is stored, is accepted for
-- the scope that its path needs, and was allowed by the limiter, if this is on; the principal is that
-- key's, with the tier that its scopes give.
pub api_access-HasShown :
    (v : Service) (r : Request) (s : State) (p : Principal)
    → v.enforce_api_keys ≡ true
    → (api_access v r s).0 ≡ ok p
    → (raw : Text) × (k : ApiKey) × (extract_credentials v.unicode r.api_key r.bearer ≡ some raw)
      × (p ≡ principal_of k)
      × HasShown v r s raw k
unfolding api_access
api_access-HasShown v r s p h e =
    let credential = extract_credentials v.unicode r.api_key r.bearer in
    Gives-result (IsAdmitted v r s credential) (authenticate v r s credential).0 p
      (authenticate-IsAdmitted v r s credential)
      (subst (λ b. (if b then authenticate v r s credential else limit v r anonymous s).0 ≡ ok p) h
        e)
