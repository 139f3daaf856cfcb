-- ===== src/Witnesses/Requests.antt =====
-- A request with a key, and one without.

use tenderbase_api.Prelude.{ok, err, ◌≡◌, refl, ◌⊎◌, true, none, some, [], ◌∷◌}
use tenderbase_api.Prelude.Text.{Text, codes}
use tenderbase_api.Enums.{ApiKeyStatus}
use tenderbase_api.ApiKey.{ApiKey, verify, verify_row, touch}
use tenderbase_api.RateLimit.{
  RateDecision, check, bucket_for, assign, lookup, pop_first, decide, difference, policy_for,
}
use tenderbase_api.RateLimit.Fallback.{absent, resilient_check}
use tenderbase_api.Auth.Scope.{required_scope_for}
use tenderbase_api.Auth.Request.{
  Request, Service, State, api_access, extract_credentials, limit, missing_key, principal_of,
  rate_limited,
}
use tenderbase_api.Auth.Admission.{HasShown, api_access-HasShown}
use tenderbase_api.Auth.Refusal.{api_access-refused}
use tenderbase_api.Witnesses.Fixtures.{ascii}

abbrev raw_key : Text
raw_key = codes "tb_live_0123456789abcdef"

abbrev reader : ApiKey
reader = record {
  id = 4;
  name = codes "reader";
  key_hash = raw_key;
  status = ApiKeyStatus.active;
  scopes = codes "read:tenders" ∷ [];
  expires_at = some 900;
  last_used_at = none;
  last_used_ip = none;
  revoked_at = none;
  revoked_reason = none;
}

abbrev service : Service
service = record {
  unicode = ascii;
  unquote = λ t. t;
  digest = λ t. t;
  display_id = λ k. k.name;
  enforce_api_keys = true;
  use_rate_limit = true;
  limits = record { anonymous = 1; authenticated = 2; admin = 3; burst = 0 };
  fail_open = true;
  primary = absent;
  now = 100;
  database = true;
  audit = true;
}

abbrev state : State
state = record { keys = reader ∷ []; table = record { counters = []; max_entries = 2 } }

abbrev request : Request
request = record {
  path = codes "/api/v1/tenders";
  forwarded = none;
  client_host = some (codes "ip");
  api_key = some raw_key;
  bearer = none;
}

let_through : (api_access service request state).0 ≡ ok (principal_of reader)
unfolding api_access extract_credentials limit verify verify_row touch required_scope_for policy_for
    resilient_check check bucket_for assign lookup pop_first decide difference
let_through = refl

api_access-HasShown_example :
    (raw : Text) × (k : ApiKey) × (extract_credentials ascii (some raw_key) none ≡ some raw)
    × (principal_of reader ≡ principal_of k)
    × HasShown service request state raw k
api_access-HasShown_example =
    api_access-HasShown service request state (principal_of reader) refl let_through

abbrev bare : Request
bare = record request { api_key = none }

refused : (api_access service bare state).0 ≡ err missing_key
unfolding api_access extract_credentials
refused = refl

api_access-refused_example :
    ((api_access service bare state).1 ≡ state)
    ⊎ ((api_access service bare state).1.keys ≡ state.keys
        × ((d : RateDecision) × (missing_key ≡ rate_limited d)))
api_access-refused_example = api_access-refused service bare state missing_key refused
