-- ===== src/Auth/Refusal.antt =====
-- app/api/auth.py: what a refused request leaves behind.
use tenderbase_api.Prelude.{
  ltb, if◌then◌else◌, length, Result, ok, err, ◌≡◌, refl, subst, ◌⊎◌, inl, inr, Bool, true, false,
  ◌||◌, Option, none, some, arith,
}
use tenderbase_api.Prelude.Text.{Text}
use tenderbase_api.ApiKey.{ApiKey, KeyError, verify}
use tenderbase_api.RateLimit.{InProcess, RateDecision, RateError}
use tenderbase_api.Auth.Scope.{required_scope_for}
use tenderbase_api.Auth.Request.{
  touched, verified, authenticate, limit, admitted, AuthError, Principal, Request, Service, State,
  anonymous, api_access, database_unavailable, decision_for, extract_credentials, principal_of,
  rate_limited,
}

-- An error changes nothing, but for the count of the limiter where it is the limiter's refusal.
abbrev IsClean : State → Result AuthError Principal × State → Type 0
IsClean s (ok p, s') = Unit
IsClean s (err e, s') = (s' ≡ s) ⊎ (s'.keys ≡ s.keys × ((d : RateDecision) × (e ≡ rate_limited d)))

IsClean-if :
    (s : State) (b : Bool) (x y : Result AuthError Principal × State)
    → IsClean s x
    → IsClean s y
    → IsClean s (if b then x else y)
IsClean-if s true x y f g = f
IsClean-if s false x y f g = g

decided-IsClean :
    (allowed : Bool) (p : Principal) (s : State) (d : RateDecision) (table : InProcess)
    → IsClean s (if allowed then ok p else err (rate_limited d), record s { table = table })
decided-IsClean true p s d table = tt
decided-IsClean false p s d table = inr (refl, (d, refl))

admitted-IsClean :
    (p : Principal) (s : State) (x : Result RateError (RateDecision × InProcess))
    → IsClean s (admitted p s x)
admitted-IsClean p s (err e) = inl refl
admitted-IsClean p s (ok (d, table)) = decided-IsClean d.allowed p s d table

limit-IsClean : (v : Service) (r : Request) (p : Principal) (s : State) → IsClean s (limit v r p s)
unfolding limit
limit-IsClean v r p s =
    IsClean-if s v.use_rate_limit (admitted p s (decision_for v r p s.table)) (ok p, s)
      (admitted-IsClean p s (decision_for v r p s.table)) tt

touched-IsClean :
    (v : Service) (r : Request) (k : ApiKey) (s : State) (o : Result AuthError Principal × State)
    → IsClean s o
    → IsClean s (touched v r k o)
touched-IsClean v r k s (err e, s') h = h
touched-IsClean v r k s (ok p, s') h = tt

verified-IsClean :
    (v : Service) (r : Request) (s : State) (x : Result KeyError ApiKey)
    → IsClean s (verified v r s x)
verified-IsClean v r s (err e) = inl refl
verified-IsClean v r s (ok k) =
    touched-IsClean v r k s (limit v r (principal_of k) s) (limit-IsClean v r (principal_of k) s)

authenticate-IsClean :
    (v : Service) (r : Request) (s : State) (credential : Option Text)
    → IsClean s (authenticate v r s credential)
authenticate-IsClean v r s none = inl refl
authenticate-IsClean v r s (some raw) =
    let found = (verify v.digest v.now raw (required_scope_for v.unquote r.path) s.keys).0 in
    IsClean-if s (v.database || ltb (length raw) 20) (verified v r s found)
      (err database_unavailable, s) (verified-IsClean v r s found) (inl refl)

IsClean-err :
    (s : State) (o : Result AuthError Principal × State) (e : AuthError)
    → IsClean s o
    → o.0 ≡ err e
    → (o.1 ≡ s) ⊎ (o.1.keys ≡ s.keys × ((d : RateDecision) × (e ≡ rate_limited d)))
IsClean-err s (ok p, s') e h q = absurd (not_err p e q)
  where
    not_err : (p : Principal) (e : AuthError) → Path (Result AuthError Principal) (ok p) (err e) → ⊥
    not_err p e q = absurd (ground (arith, q))
IsClean-err s (err x, s') e h q =
    subst (λ z. (s' ≡ s) ⊎ (s'.keys ≡ s.keys × ((d : RateDecision) × (z ≡ rate_limited d))))
      (same x e q) h
  where
    same : (x e : AuthError) → Path (Result AuthError Principal) (err x) (err e) → x ≡ e
    same x e q = ground (arith, q)

-- A request that is refused leaves the stored keys as they were; and unless the limiter refused it, the
-- limiter's table too: a missing or a bad key costs no request of any bucket.
pub api_access-refused :
    (v : Service) (r : Request) (s : State) (e : AuthError)
    → (api_access v r s).0 ≡ err e
    → ((api_access v r s).1 ≡ s)
      ⊎ ((api_access v r s).1.keys ≡ s.keys × ((d : RateDecision) × (e ≡ rate_limited d)))
unfolding api_access
api_access-refused v r s e q =
    let credential = extract_credentials v.unicode r.api_key r.bearer in
    IsClean-err s (api_access v r s) e
      (IsClean-if s v.enforce_api_keys (authenticate v r s credential) (limit v r anonymous s)
        (authenticate-IsClean v r s credential) (limit-IsClean v r anonymous s))
      q
