-- ===== src/Auth/Scope.antt =====
-- app/api/auth.py and app/enums.py: the scope that a path needs.
use tenderbase_api.Prelude.{◌==◌, if◌then◌else◌, keep, not, Option, none, some, List, [], ◌∷◌}
use tenderbase_api.Prelude.Text.{
  Text, codes, text_eq, is_empty, elem, rstrip_by, split_on, strip_prefix?,
}
use tenderbase_api.ApiKey.{admin}

-- `SCOPE_REQUIREMENTS`
abbrev pub scope_requirements : List (Text × Text)
scope_requirements =
    (codes "/tenders", codes "read:tenders")
    ∷ (codes "/search", codes "read:tenders")
    ∷ (codes "/events", codes "read:tenders")
    ∷ (codes "/municipalities", codes "read:tenders")
    ∷ (codes "/provinces", codes "read:geography")
    ∷ (codes "/categories", codes "read:geography")
    ∷ (codes "/documents", codes "read:documents")
    ∷ (codes "/sources", codes "read:sources")
    ∷ (codes "/statistics", codes "read:statistics")
    ∷ (codes "/operations", codes "read:sources")
    ∷ (codes "/api-keys", admin)
    ∷ []

-- `SCOPE_REQUIREMENTS.get(head, default)`
abbrev pub scope_or : Text → Text → List (Text × Text) → Text
scope_or default head [] = default
scope_or default head ((path, scope) ∷ rest) =
    if text_eq path head then scope else scope_or default head rest

abbrev pub public_heads : List Text
public_heads = codes "/health" ∷ codes "/metrics" ∷ codes "/docs" ∷ codes "/redoc" ∷ []

-- `path.rstrip("/")`
abbrev rstrip_slash : Text → Text
rstrip_slash path = rstrip_by (λ c. c == 47) path

abbrev after_api : Text → Option Text → Option Text
after_api stripped (some rest) = some rest
after_api stripped none = strip_prefix? (codes "/api") stripped

-- What is left of a path below `/api/v1` or `/api`
abbrev below_api : Text → Option Text
below_api stripped = after_api stripped (strip_prefix? (codes "/api/v1") stripped)

abbrev pub scope_of_head : Text → Option Text
scope_of_head head =
    if elem head public_heads
    then none
    else some (scope_or (codes "read:tenders") head scope_requirements)

abbrev pub scope_of_segments : List Text → Option Text
scope_of_segments [] = none
scope_of_segments (s ∷ ss) = scope_of_head (47 ∷ s)

abbrev scope_below : (Text → Text) → Option Text → Option Text
scope_below unquote none = none
scope_below unquote (some rest) =
    scope_of_segments (keep (λ s. not (is_empty s)) (split_on 47 (unquote rest)))

-- `required_scope_for`
unfoldable pub required_scope_for : (Text → Text) → Text → Option Text
required_scope_for unquote path = scope_below unquote (below_api (rstrip_slash path))
