-- ===== src/Auth/Request.antt =====
-- app/api/auth.py: who a request is from, what it may read, and its rate limit. `unquote`, the digest of
-- a raw key and the text that identifies a key in a bucket are parameters, and so is what the limiter's
-- primary and the database do in one request.
use tenderbase_api.Prelude.{
  ltb, if◌then◌else◌, length, take, Result, ok, err, ℕ, Bool, ◌||◌, Option, none, some, List, ◌∷◌,
  ◌++◌,
}
use tenderbase_api.Prelude.Text.{Text, Unicode, codes, strip_by, before}
use tenderbase_api.ApiKey.{ApiKey, KeyError, admin, grants, touch, verify}
use tenderbase_api.RateLimit.{InProcess, Limits, RateDecision, RateError, policy_for}
use tenderbase_api.RateLimit.Fallback.{Primary, resilient_check}
use tenderbase_api.Auth.Scope.{required_scope_for}

pub record Request : Type 0 where
  pub path : Text
  pub forwarded : Option Text
  pub client_host : Option Text
  pub api_key : Option Text
  pub bearer : Option Text

-- `database` and `audit` tell whether the session can read the key and commit its use.
pub record Service : Type 0 where
  pub unicode : Unicode
  pub unquote : Text → Text
  pub digest : Text → Text
  pub display_id : ApiKey → Text
  pub enforce_api_keys : Bool
  pub use_rate_limit : Bool
  pub limits : Limits
  pub fail_open : Bool
  pub primary : Primary
  pub now : ℕ
  pub database : Bool
  pub audit : Bool

-- The stored keys, and the table of the in-process limiter.
pub record State : Type 0 where
  pub keys : List ApiKey
  pub table : InProcess

pub record Principal : Type 0 where
  pub key : Option ApiKey
  pub tier : Text

pub data AuthError : Type 0 where
  missing_key database_unavailable : AuthError
  refused_key : KeyError → AuthError
  rate_limited : RateDecision → AuthError
  limiter_raised : RateError → AuthError

-- `forwarded.split(",")[0].strip()[:45]`, or the peer's address
abbrev pub client_of : Unicode → Option Text → Option Text → Text
client_of u (some (c ∷ s)) host = take 45 (strip_by u.is_space (before 44 (c ∷ s)))
client_of u _ none = take 45 (codes "unknown")
client_of u _ (some host) = take 45 host

-- `_client_ip`
abbrev pub client_ip : Service → Request → Text
client_ip v r = client_of v.unicode r.forwarded r.client_host

-- `extract_credentials`
unfoldable pub extract_credentials : Unicode → Option Text → Option Text → Option Text
extract_credentials u (some (c ∷ s)) bearer = some (strip_by u.is_space (c ∷ s))
extract_credentials u _ (some (c ∷ s)) = some (strip_by u.is_space (c ∷ s))
extract_credentials u _ _ = none

abbrev bucket_key : Service → Request → Option ApiKey → Text
bucket_key v r none = client_ip v r
bucket_key v r (some k) = v.display_id k

-- `f"{tier}:{key}"`
abbrev pub bucket_of : Service → Request → Principal → Text
bucket_of v r p = p.tier ++ 58 ∷ bucket_key v r p.key

-- The limiter's answer for a principal, at the limits of its tier
abbrev pub decision_for :
    Service → Request → Principal → InProcess → Result RateError (RateDecision × InProcess)
decision_for v r p table =
    let (limit, burst) = policy_for p.tier v.limits in
    resilient_check v.fail_open v.primary v.now (bucket_of v r p) limit burst table

abbrev pub admitted :
    Principal
    → State
    → Result RateError (RateDecision × InProcess)
    → Result AuthError Principal × State
admitted p s (err e) = (err (limiter_raised e), s)
admitted p s (ok (d, table)) =
    (if d.allowed then ok p else err (rate_limited d), record s { table = table })

-- `_limit`, which raises or lets the principal pass
unfoldable pub limit : Service → Request → Principal → State → Result AuthError Principal × State
unfolding policy_for resilient_check
limit v r p s = if v.use_rate_limit then admitted p s (decision_for v r p s.table) else (ok p, s)

-- The tier of a key
abbrev pub principal_of : ApiKey → Principal
principal_of k = record {
  key = some k;
  tier = if grants k admin then codes "admin" else codes "authenticated";
}

-- `service.touch` and the commit: a failure of either is rolled back.
abbrev pub touched :
    Service
    → Request
    → ApiKey
    → Result AuthError Principal × State
    → Result AuthError Principal × State
touched v r k (err e, s) = (err e, s)
touched v r k (ok p, s) =
    (ok p, if v.audit then record s { keys = touch v.now (some (client_ip v r)) k s.keys } else s)

-- What follows `service.verify`. Where it raises, the session is rolled back: the keys are as before.
abbrev pub verified :
    Service → Request → State → Result KeyError ApiKey → Result AuthError Principal × State
verified v r s (err e) = (err (refused_key e), s)
verified v r s (ok k) = touched v r k (limit v r (principal_of k) s)

abbrev pub authenticate :
    Service → Request → State → Option Text → Result AuthError Principal × State
authenticate v r s none = (err missing_key, s)
authenticate v r s (some raw) =
    if v.database || ltb (length raw) 20
    then verified v r s (verify v.digest v.now raw (required_scope_for v.unquote r.path) s.keys).0
    else (err database_unavailable, s)

abbrev pub anonymous : Principal
anonymous = record { key = none; tier = codes "anonymous" }

-- `api_access`
unfoldable pub api_access : Service → Request → State → Result AuthError Principal × State
unfolding extract_credentials limit verify touch required_scope_for
api_access v r s =
    if v.enforce_api_keys
    then authenticate v r s (extract_credentials v.unicode r.api_key r.bearer)
    else limit v r anonymous s
