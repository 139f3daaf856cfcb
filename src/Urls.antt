-- ===== src/Urls.antt =====
-- app/utils/urls.py: canonical URLs and the check of an outbound URL. The parsers of `urllib` and
-- `ipaddress` and the resolver of `socket` are a parameter; a reason is a case, not its English text.
pub mod Safety
use mathlib.Core.List.{reverse}
use tenderbase_api.Prelude.{
  ◌==◌, if◌then◌else◌, is_some, any, keep, Result, ◌>>=◌, ok, err, ℕ, Bool, true, false, not, ◌&&◌,
  ◌||◌, Option, none, some, List, [], ◌∷◌, ◌++◌,
}
use tenderbase_api.Prelude.Text.{
  Text, Unicode, codes, text_eq, is_empty, elem, has_char, strip_by, split_on, before,
  strip_prefix?,
}

-- `ValueError` is what `urlsplit`, `.port` and `urljoin` raise on a text that is no URL.
pub data UrlError : Type 0 where
  empty_url credentials value_error : UrlError

pub record Parts : Type 0 where
  pub scheme : Text
  pub netloc : Text
  pub hostname : Option Text
  pub port : Result UrlError (Option ℕ)
  pub path : Text
  pub query : Text

pub record Ip : Type 0 where
  pub text : Text
  pub is_private : Bool
  pub is_loopback : Bool
  pub is_link_local : Bool
  pub is_multicast : Bool
  pub is_reserved : Bool
  pub is_unspecified : Bool

-- `getaddrinfo` gives no address where it raises.
pub record UrlLib : Type 0 where
  pub unicode : Unicode
  pub urlsplit : Text → Result UrlError Parts
  pub urljoin : Text → Text → Result UrlError Text
  pub urlunsplit : Text → Text → Text → Text → Text
  pub decimal : ℕ → Text
  pub ip_address : Text → Option Ip
  pub getaddrinfo : Text → List Text

abbrev pub allowed_schemes : List Text
allowed_schemes = codes "http" ∷ codes "https" ∷ []

abbrev pub tracking_params : List Text
tracking_params =
    codes "utm_source"
    ∷ codes "utm_medium"
    ∷ codes "utm_campaign"
    ∷ codes "utm_term"
    ∷ codes "utm_content"
    ∷ codes "gclid"
    ∷ codes "fbclid"
    ∷ codes "mc_cid"
    ∷ codes "mc_eid"
    ∷ codes "_ga"
    ∷ []

abbrev pub strip : UrlLib → Text → Text
strip lib s = strip_by lib.unicode.is_space s

abbrev pub text_or_empty : Option Text → Text
text_or_empty none = []
text_or_empty (some s) = s

-- `"&".join(pairs)`
abbrev pub join_pairs : List Text → Text
join_pairs [] = []
join_pairs (p ∷ []) = p
join_pairs (p ∷ (q ∷ ps)) = p ++ 38 ∷ join_pairs (q ∷ ps)

-- The test of the comprehension over the query's pairs.
abbrev pub is_meaningful : UrlLib → Text → Bool
is_meaningful lib pair =
    not (is_empty pair) && not (elem (lib.unicode.lower (before 61 pair)) tracking_params)

unfoldable pub kept_query : UrlLib → Bool → Text → Text
kept_query lib strip_tracking query =
    if strip_tracking && not (is_empty query)
    then join_pairs (keep (is_meaningful lib) (split_on 38 query))
    else query

abbrev is_default_port : Text → ℕ → Bool
is_default_port scheme port =
    text_eq scheme (codes "http") && port == 80 || text_eq scheme (codes "https") && port == 443

abbrev with_port : UrlLib → Text → Text → Option ℕ → Text
with_port lib scheme host none = host
with_port lib scheme host (some port) =
    if port == 0 || is_default_port scheme port then host else host ++ 58 ∷ lib.decimal port

abbrev join_base : UrlLib → Option Text → Text → Result UrlError Text
join_base lib none raw = ok raw
join_base lib (some base) raw = if is_empty base then ok raw else lib.urljoin base raw

abbrev canonical : UrlLib → Bool → Parts → Result UrlError Text
canonical lib strip_tracking p =
    let scheme = lib.unicode.lower p.scheme in
    if has_char 64 p.netloc
    then err credentials
    else (p.port >>= λ port. ok (
        lib.urlunsplit scheme
          (with_port lib scheme (lib.unicode.lower (text_or_empty p.hostname)) port)
          (if is_empty p.path then codes "/" else p.path) (kept_query lib strip_tracking p.query)))

unfoldable pub normalize_url : UrlLib → Option Text → Bool → Text → Result UrlError Text
normalize_url lib base strip_tracking value =
    if is_empty (strip lib value)
    then err empty_url
    else (join_base lib base (strip lib value) >>= λ raw.
        lib.urlsplit raw >>= λ p. canonical lib strip_tracking p)

unfoldable pub is_http_url : UrlLib → Option Text → Bool
is_http_url lib none = false
is_http_url lib (some value) = not (is_empty value) && elim (lib.urlsplit (strip lib value)) [
  | ok p ↦ elem p.scheme allowed_schemes && not (is_empty p.netloc)
  | err e ↦ false
]

-- `_is_disallowed_ip`
abbrev pub is_disallowed_ip : Ip → Bool
is_disallowed_ip ip =
    ip.is_private || ip.is_loopback || ip.is_link_local || ip.is_multicast || ip.is_reserved
    || ip.is_unspecified

pub data Reason : Type 0 where
  bad_url : UrlError → Reason
  scheme_not_allowed missing_host restricted_ip loopback_hostname : Reason
  unresolved unparseable_address restricted_range : Reason
  port_not_allowed : ℕ → Reason

-- `URLCheck`, its `ok` and `reason` as one field: no reason is what `ok` means.
pub record UrlCheck : Type 0 where
  pub url : Text
  pub reason : Option Reason
  pub host : Option Text
  pub resolved_ips : List Text

abbrev pub is_ok : UrlCheck → Bool
is_ok c = not (is_some c.reason)

abbrev pub rejected : Text → Reason → Option Text → List Text → UrlCheck
rejected url r host ips = record { url = url; reason = some r; host = host; resolved_ips = ips }

abbrev pub accepted : Text → Text → List Text → UrlCheck
accepted url host ips = record { url = url; reason = none; host = some host; resolved_ips = ips }

abbrev pub reason_of : Option Ip → Option Reason
reason_of none = some unparseable_address
reason_of (some ip) = if is_disallowed_ip ip then some restricted_range else none

abbrev pub or_later : Option Reason → Option Reason → Option Reason
or_later none later = later
or_later (some r) later = some r

-- What the loop over the resolved addresses returns early with.
unfoldable pub first_bad : UrlLib → List Text → Option Reason
first_bad lib [] = none
first_bad lib (raw ∷ ips) = or_later (reason_of (lib.ip_address raw)) (first_bad lib ips)

abbrev ends_with_local : Text → Bool
ends_with_local host = is_some (strip_prefix? (reverse (codes ".local")) (reverse host))

abbrev pub is_loopback_name : UrlLib → Text → Bool
is_loopback_name lib host =
    elem (lib.unicode.lower host) (codes "localhost" ∷ codes "localhost.localdomain" ∷ [])
    || ends_with_local (lib.unicode.lower host)

abbrev pub judged : Text → Text → List Text → Option Reason → UrlCheck
judged url host ips none = accepted url host ips
judged url host ips (some r) = rejected url r (some host) ips

abbrev pub resolved : UrlLib → Text → Text → List Text → UrlCheck
resolved lib url host [] = rejected url unresolved (some host) []
resolved lib url host (ip ∷ ips) = judged url host (ip ∷ ips) (first_bad lib (ip ∷ ips))

abbrev pub by_name : UrlLib → Bool → Text → Text → UrlCheck
by_name lib check_dns url host =
    if is_loopback_name lib host
    then rejected url loopback_hostname (some host) []
    else if not check_dns
    then accepted url host []
    else resolved lib url host (lib.getaddrinfo host)

abbrev pub by_literal : Text → Text → Option Ip → UrlCheck → UrlCheck
by_literal url host none otherwise = otherwise
by_literal url host (some ip) otherwise =
    if is_disallowed_ip ip
    then rejected url restricted_ip (some host) []
    else accepted url host (ip.text ∷ [])

-- The checks of an address, once the host is known.
abbrev pub check_host : UrlLib → Bool → Bool → Text → Text → UrlCheck
check_host lib allow_private check_dns url host =
    if allow_private
    then accepted url host []
    else by_literal url host (lib.ip_address host) (by_name lib check_dns url host)

abbrev pub bad_port : List ℕ → Option ℕ → Option ℕ
bad_port allowed none = none
bad_port allowed (some p) = if any (λ q. q == p) allowed then none else some p

abbrev pub refused_port : Text → Option ℕ → UrlCheck → UrlCheck
refused_port url none otherwise = otherwise
refused_port url (some p) otherwise = rejected url (port_not_allowed p) none []

abbrev pub check_port : UrlLib → Bool → Bool → List ℕ → Text → Text → Option ℕ → UrlCheck
check_port lib allow_private check_dns allowed url host port =
    refused_port url (bad_port allowed port) (check_host lib allow_private check_dns url host)

abbrev pub check_parts : UrlLib → Bool → Bool → List ℕ → Text → Parts → Result UrlError UrlCheck
check_parts lib allow_private check_dns allowed url p =
    let host = text_or_empty p.hostname in
    if not (elem p.scheme allowed_schemes)
    then ok (rejected url scheme_not_allowed none [])
    else if is_empty host
    then ok (rejected url missing_host none [])
    else (p.port >>= λ port. ok (check_port lib allow_private check_dns allowed url host port))

abbrev pub rejected_or_raised : Text → UrlError → Result UrlError UrlCheck
rejected_or_raised value empty_url = ok (rejected value (bad_url empty_url) none [])
rejected_or_raised value credentials = ok (rejected value (bad_url credentials) none [])
rejected_or_raised value value_error = err value_error

abbrev pub check_candidate :
    UrlLib → Bool → Bool → List ℕ → Text → Result UrlError Text → Result UrlError UrlCheck
check_candidate lib allow_private check_dns allowed value (err e) = rejected_or_raised value e
check_candidate lib allow_private check_dns allowed value (ok url) =
    lib.urlsplit url >>= check_parts lib allow_private check_dns allowed url

-- `validate_url`: only `UnsafeURLError` becomes a rejection; a `ValueError` goes on to the caller.
unfoldable pub validate_url : UrlLib → Bool → Bool → List ℕ → Text → Result UrlError UrlCheck
unfolding normalize_url first_bad
validate_url lib allow_private check_dns allowed value =
    check_candidate lib allow_private check_dns allowed value (normalize_url lib none true value)

-- `require_safe_url`
pub data Unsafe : Type 0 where
  rejected_url : Option Reason → Unsafe
  raised : UrlError → Unsafe

unfoldable pub require_safe_url : UrlLib → Bool → List ℕ → Text → Result Unsafe Text
require_safe_url lib allow_private allowed value =
    elim (validate_url lib allow_private true allowed value) [
      | ok c ↦ if is_ok c then ok c.url else err (rejected_url c.reason)
      | err e ↦ err (raised e)
    ]

abbrev host_of : UrlLib → Text → Result UrlError Text
host_of lib url = lib.urlsplit url >>= λ p.
    let h = lib.unicode.lower (text_or_empty p.hostname) in
    ok (elim (strip_prefix? (codes "www.") h) [ some rest ↦ rest | none ↦ h ])

unfoldable pub same_registrable_host : UrlLib → Text → Text → Result UrlError Bool
same_registrable_host lib a b =
    host_of lib a >>= λ x. host_of lib b >>= λ y. ok (text_eq x y && not (is_empty x))
