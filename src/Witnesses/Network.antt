-- ===== src/Witnesses/Network.antt =====
-- The check of URLs and the fetcher at concrete inputs.
use tenderbase_api.Prelude.{
  length, ok, ℕ, ◌+◌, ◌*◌, ◌/◌, ◌≤◌, ◌<◌, ◌≡◌, refl, true, false, Option, none, some, List, [], ◌∷◌,
  arith,
}
use tenderbase_api.Prelude.Text.{Text, codes}
use tenderbase_api.Urls.{Parts, UrlCheck, first_bad, kept_query, normalize_url, validate_url}
use tenderbase_api.Urls.Safety.{IsSafe, validate_url-IsSafe}
use tenderbase_api.Fetcher.{Env, FetchPolicy, FetchResult, HttpResponse, World, is_retryable_status}
use tenderbase_api.Fetcher.Politeness.{acquire, next_allowed_of}
use tenderbase_api.Fetcher.Response.{read_body, read_response, refuses_type}
use tenderbase_api.Fetcher.Fetch.{Plan, attempt, attempts, backoff, fetch}
use tenderbase_api.Fetcher.Stream.{Streamed, stream_to, write_body}
use tenderbase_api.Fetcher.Contract.{IsSafeUrl, fetch-IsAcceptable}
use tenderbase_api.Fetcher.Sink.{stream_to-size}
use tenderbase_api.Fetcher.Retries.{EndsAfter, attempts-ends}
use tenderbase_api.Fetcher.Spacing.{acquire_each, acquire-apart}
use tenderbase_api.Witnesses.Fixtures.{web}

abbrev site : Text
site = codes "http://a.za/"

abbrev ports : List ℕ
ports = 80 ∷ 443 ∷ []

abbrev site_check : UrlCheck
site_check = record {
  url = site;
  reason = none;
  host = some (codes "a.za");
  resolved_ips = codes "8.8.8.8" ∷ [];
}

site_ok : validate_url web false true ports site ≡ ok site_check
unfolding validate_url normalize_url first_bad kept_query
site_ok = refl

validate_url-IsSafe_example :
    (p : Parts) × (web.urlsplit site_check.url ≡ ok p)
    × IsSafe web ports site_check.url p site_check
validate_url-IsSafe_example = validate_url-IsSafe web ports site site_check site_ok refl

abbrev page : HttpResponse
page = record {
  url = site;
  status_code = 200;
  content_type = some (codes "text/html");
  content_length = some (codes "3");
  chunks = (1 ∷ 2 ∷ []) ∷ (3 ∷ []) ∷ [];
  broken = false;
}

-- The first request is answered with 503, the later ones with the page.
abbrev answer : List Text → Option HttpResponse
answer [] = some (record page { status_code = 503 })
answer (r ∷ rs) = some page

abbrev env : Env
env = record {
  lib = web;
  send = λ rs u. (answer rs, 5);
  parse_robots = λ chunks. none;
  uniform = λ rs low high. low;
  allow_private_networks = false;
  allowed_ports = ports;
  respect_robots = false;
  user_agent = codes "bot";
  default_per_minute = 30;
  max_retries = 2;
  max_response_bytes = 100;
  backoff_base = 500000;
  robots_ttl = 3600000000;
}

abbrev world : World
world = record { now = 7; requests = []; next_allowed = []; robots = [] }

abbrev no_policy : FetchPolicy
no_policy = record {
  max_retries = none;
  max_bytes = none;
  allowed_content_types = [];
  respect_robots = none;
  rate_limit_per_minute = none;
}

abbrev fetched : FetchResult
fetched = record {
  url = site;
  status_code = 200;
  content_type = codes "text/html";
  content = 1 ∷ 2 ∷ 3 ∷ [];
}

fetch_runs : (fetch env no_policy none site world).0 ≡ ok fetched
unfolding fetch validate_url normalize_url first_bad kept_query attempts attempt read_response
    read_body acquire next_allowed_of backoff
fetch_runs = refl

fetch-IsAcceptable_example :
    IsSafeUrl env fetched.url
    × fetched.status_code < 400
    × is_retryable_status fetched.status_code ≡ false
    × refuses_type [] fetched.content_type ≡ false
    × length fetched.content ≤ 100
fetch-IsAcceptable_example =
    fetch-IsAcceptable env no_policy none site world fetched refl fetch_runs

abbrev later : World
later = record world { requests = site ∷ [] }

abbrev streamed_page : Streamed
streamed_page = record { url = site; status_code = 200; content_type = codes "text/html"; size = 3 }

stream_runs : (stream_to env 10 [] site later).0 ≡ ok streamed_page
unfolding stream_to validate_url normalize_url first_bad kept_query write_body acquire
    next_allowed_of
stream_runs = refl

stream_to-size_example :
    streamed_page.size ≡ length (stream_to env 10 [] site later).1
    × streamed_page.size ≤ 10
    × streamed_page.status_code < 400
stream_to-size_example = stream_to-size env 10 [] site later streamed_page stream_runs

abbrev plan : Plan
plan = record {
  url = site;
  host = codes "a.za";
  per_minute = 30;
  max_retries = 2;
  max_bytes = 100;
  allowed_types = [];
}

attempts-ends_example : (k : ℕ) × EndsAfter env plan 2 [] (attempts env plan 0 2 world) k
attempts-ends_example = attempts-ends env plan 0 2 world

abbrev others : List (Text × ℕ × ℕ)
others = (codes "b.za", 10, 40) ∷ []

acquire-apart_example :
    (acquire env (codes "a.za") 30 world).now + 60000000 / 30 * 900 / 1000
    ≤ (acquire env
        (codes "a.za")
        30
        (acquire_each env others (acquire env (codes "a.za") 30 world))).now
acquire-apart_example =
    acquire-apart env (codes "a.za") 30 world others (omega arith) (omega arith) (refl, tt)
