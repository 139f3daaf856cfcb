-- ===== src/Witnesses/Keys.antt =====
-- API keys: one that is verified, and then revoked and used again.
use mathlib.Core.List.{Memᴰ}
use tenderbase_api.Prelude.{length, All, ok, ◌≤◌, ◌≡◌, refl, ◌≢◌, Option, none, some, List, [], ◌∷◌}
use tenderbase_api.Prelude.Text.{Text, codes}
use tenderbase_api.Enums.{ApiKeyStatus}
use tenderbase_api.ApiKey.{
  ApiKey, parse_scopes, verify, revoke, revoked_key, replace_key, resolve, resolve_one, preset,
  verify_row,
}
use tenderbase_api.ApiKey.Scopes.{IsKnown, AllServed, parts_of, parse_scopes-IsKnown}
use tenderbase_api.ApiKey.Access.{IsAccepted, verify-IsAccepted, verified, here, next, revoke_final}
use tenderbase_api.Witnesses.Fixtures.{ascii}

abbrev raw_key : Text
raw_key = codes "tb_live_0123456789abcdef"

abbrev partner : ApiKey
partner = record {
  id = 4;
  name = codes "partner";
  key_hash = raw_key;
  status = ApiKeyStatus.active;
  scopes = codes "read:tenders" ∷ [];
  expires_at = some 900;
  last_used_at = none;
  last_used_ip = none;
  revoked_at = none;
  revoked_reason = none;
}

abbrev other : ApiKey
other = record partner { id = 5 }

abbrev keys : List ApiKey
keys = partner ∷ []

accepted : (verify (λ t. t) 100 raw_key (some (codes "read:tenders")) keys).0 ≡ ok partner
unfolding verify verify_row
accepted = refl

verify-IsAccepted_example :
    Memᴰ partner keys × IsAccepted (λ t. t) 100 raw_key (some (codes "read:tenders")) partner
verify-IsAccepted_example =
    verify-IsAccepted (λ t. t) 100 raw_key (some (codes "read:tenders")) keys partner accepted

-- Two keys of which the first is revoked; the second one has another digest.
abbrev two_keys : List ApiKey
two_keys = partner ∷ record other { key_hash = codes "other_key_other_key_other" } ∷ []

abbrev after_revocation : List ApiKey
after_revocation =
    revoked_key 200 none partner
    ∷ record other { key_hash = codes "other_key_other_key_other" }
    ∷ []

revocation : revoke 200 4 none two_keys ≡ ok after_revocation
unfolding revoke replace_key
revocation = refl

second_accepted :
    (verify
      (λ t. t)
      300
      (codes "other_key_other_key_other")
      none
      (verify (λ t. t) 250 raw_key none after_revocation).1).0
    ≡ ok (record other { key_hash = codes "other_key_other_key_other" })
unfolding verify verify_row
second_accepted = refl

revoke_final_example : other.id ≢ 4
revoke_final_example =
    revoke_final 200 4 none two_keys after_revocation
      (verify (λ t. t) 250 raw_key none after_revocation).1 revocation
      (next here (verified (λ t. t) 250 raw_key none)) (λ t. t) 300
      (codes "other_key_other_key_other") none
      (record other { key_hash = codes "other_key_other_key_other" }) second_accepted

abbrev asked : Option (List Text)
asked = some (codes "read:tenders, sources" ∷ [])

abbrev granted : List Text
granted = codes "read:tenders" ∷ codes "read:sources" ∷ codes "read:statistics" ∷ []

parsed : parse_scopes ascii asked ≡ ok granted
unfolding parse_scopes resolve resolve_one preset
parsed = refl

parse_scopes-IsKnown_example :
    All IsKnown granted × (1 ≤ length granted) × AllServed ascii granted (parts_of ascii asked)
parse_scopes-IsKnown_example = parse_scopes-IsKnown ascii asked granted parsed
