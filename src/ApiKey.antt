-- ===== src/ApiKey.antt =====
-- app/services/api_key_service.py, app/db/models/security.py and app/enums.py: the scopes of an API key,
-- its verification, use and revocation. The keyed digest is a parameter; `ensure_utc` is the identity on UTC microseconds.
pub mod Scopes
pub mod Access
use tenderbase_api.Prelude.{
  ltb, leb, ◌==◌, if◌then◌else◌, length, take, first, Result, ◌>>=◌, ok, err, ℕ, Bool, true, false,
  not, ◌||◌, Option, none, some, List, [], ◌∷◌, ◌++◌,
}
use tenderbase_api.Prelude.Text.{Text, Unicode, codes, text_eq, is_empty, elem, strip_by, split_on}
use tenderbase_api.Enums.{ApiKeyStatus}

pub data KeyError : Type 0 where
  invalid_scope invalid_name invalid_expiry : KeyError
  key_missing key_invalid key_revoked key_expired key_inactive insufficient_scope : KeyError
  not_found : KeyError

abbrev pub admin : Text
admin = codes "admin"

abbrev pub all_read_scopes : List Text
all_read_scopes =
    codes "read:tenders"
    ∷ codes "read:sources"
    ∷ codes "read:documents"
    ∷ codes "read:statistics"
    ∷ codes "read:geography"
    ∷ []

abbrev pub api_key_scopes : List Text
api_key_scopes = all_read_scopes ++ (admin ∷ [])

-- `SCOPE_PRESETS`
unfoldable pub preset : Text → Option (List Text)
preset name =
    if text_eq name (codes "readonly")
    then some all_read_scopes
    else if text_eq name (codes "tenders")
    then some (codes "read:tenders" ∷ [])
    else if text_eq name (codes "sources")
    then some (codes "read:sources" ∷ codes "read:statistics" ∷ [])
    else if text_eq name admin
    then some (admin ∷ [])
    else none

-- `if scope not in resolved: resolved.append(scope)`
abbrev pub add_scope : Text → List Text → List Text
add_scope s resolved = if elem s resolved then resolved else resolved ++ (s ∷ [])

abbrev pub add_scopes : List Text → List Text → List Text
add_scopes [] resolved = resolved
add_scopes (s ∷ ss) resolved = add_scopes ss (add_scope s resolved)

abbrev pub resolve_preset : Option (List Text) → Text → List Text → Result KeyError (List Text)
resolve_preset (some scopes) candidate resolved = ok (add_scopes scopes resolved)
resolve_preset none candidate resolved =
    if elem candidate api_key_scopes then ok (add_scope candidate resolved) else err invalid_scope

-- One turn of the loop of `parse_scopes`, on a part that is stripped.
unfoldable pub resolve_one : Unicode → Text → List Text → Result KeyError (List Text)
unfolding preset
resolve_one u candidate resolved = resolve_preset (preset (u.lower candidate)) candidate resolved

unfoldable pub resolve : Unicode → List Text → List Text → Result KeyError (List Text)
unfolding resolve_one
resolve u [] resolved = ok resolved
resolve u (v ∷ vs) resolved = resolve_one u v resolved >>= resolve u vs

abbrev pub strip_parts : Unicode → List Text → List Text
strip_parts u [] = []
strip_parts u (p ∷ ps) =
    let rest = strip_parts u ps in
    if is_empty (strip_by u.is_space p) then rest else strip_by u.is_space p ∷ rest

abbrev pub parts : Unicode → List Text → List Text
parts u [] = []
parts u (v ∷ vs) = strip_parts u (split_on b',' v) ++ parts u vs

abbrev pub some_scope : List Text → Result KeyError (List Text)
some_scope [] = err invalid_scope
some_scope (s ∷ ss) = ok (s ∷ ss)

-- `parse_scopes`; one string is a list of one
unfoldable pub parse_scopes : Unicode → Option (List Text) → Result KeyError (List Text)
unfolding resolve
parse_scopes u none = ok all_read_scopes
parse_scopes u (some values) = resolve u (parts u values) [] >>= some_scope

pub record ApiKey : Type 0 where
  pub id : ℕ
  pub name : Text
  pub key_hash : Text
  pub status : ApiKeyStatus
  pub scopes : List Text
  pub expires_at : Option ℕ
  pub last_used_at : Option ℕ
  pub last_used_ip : Option Text
  pub revoked_at : Option ℕ
  pub revoked_reason : Option Text

-- `grants`
abbrev pub grants : ApiKey → Text → Bool
grants k scope = elem admin k.scopes || elem scope k.scopes

abbrev pub grants_required : ApiKey → Option Text → Bool
grants_required k none = true
grants_required k (some []) = true
grants_required k (some (c ∷ s)) = grants k (c ∷ s)

abbrev pub has_expired : ℕ → Option ℕ → Bool
has_expired now none = false
has_expired now (some t) = leb t now

unfoldable pub replace_key : ApiKey → List ApiKey → List ApiKey
replace_key k [] = []
replace_key k (x ∷ xs) = let rest = replace_key k xs in if x.id == k.id then k ∷ rest else x ∷ rest

abbrev pub is_active : ApiKeyStatus → Bool
is_active ApiKeyStatus.active = true
is_active _ = false

abbrev pub is_revoked : ApiKeyStatus → Bool
is_revoked ApiKeyStatus.revoked = true
is_revoked _ = false

-- `verify`, from the row that the digest finds
unfoldable pub verify_row :
    ℕ → Option Text → ApiKey → List ApiKey → Result KeyError ApiKey × List ApiKey
unfolding replace_key
verify_row now required k keys =
    if is_revoked k.status
    then (err key_revoked, keys)
    else if has_expired now k.expires_at
    then (err key_expired, replace_key (record k { status = ApiKeyStatus.expired }) keys)
    else if not (is_active k.status)
    then (err key_inactive, keys)
    else if not (grants_required k required)
    then (err insufficient_scope, keys)
    else (ok k, keys)

abbrev pub verify_found :
    ℕ → Option Text → Option ApiKey → List ApiKey → Result KeyError ApiKey × List ApiKey
verify_found now required none keys = (err key_invalid, keys)
verify_found now required (some k) keys = verify_row now required k keys

-- `verify`
unfoldable pub verify :
    (Text → Text) → ℕ → Text → Option Text → List ApiKey → Result KeyError ApiKey × List ApiKey
unfolding verify_row
verify digest now raw required keys =
    if ltb (length raw) 20
    then (err key_missing, keys)
    else verify_found now required (first (λ k. text_eq k.key_hash (digest raw)) keys) keys

abbrev pub given_ip : Option Text → Option Text → Option Text
given_ip (some (c ∷ s)) old = some (take 45 (c ∷ s))
given_ip _ old = old

-- `touch`
unfoldable pub touch : ℕ → Option Text → ApiKey → List ApiKey → List ApiKey
unfolding replace_key
touch now ip k keys =
    replace_key (record k { last_used_at = some now; last_used_ip = given_ip ip k.last_used_ip })
      keys

abbrev revoke_reason : Option Text → Text
revoke_reason (some (c ∷ s)) = take 300 (c ∷ s)
revoke_reason _ = codes "Revoked by operator"

abbrev pub revoked_key : ℕ → Option Text → ApiKey → ApiKey
revoked_key now reason k = record k {
  status = ApiKeyStatus.revoked;
  revoked_at = some now;
  revoked_reason = some (revoke_reason reason);
}

abbrev revoke_found : ℕ → Option Text → Option ApiKey → List ApiKey → Result KeyError (List ApiKey)
revoke_found now reason none keys = err not_found
revoke_found now reason (some k) keys = ok (replace_key (revoked_key now reason k) keys)

-- `revoke`, of an identifier that parses
unfoldable pub revoke : ℕ → ℕ → Option Text → List ApiKey → Result KeyError (List ApiKey)
unfolding replace_key
revoke now id reason keys = revoke_found now reason (first (λ k. k.id == id) keys) keys
