-- ===== src/Fetcher/Fetch.antt =====
-- app/ingestion/fetcher.py: `HTTPFetcher.fetch`, with its loop over the attempts.
use tenderbase_api.Prelude.{
  ◌==◌, if◌then◌else◌, Result, ok, err, ℕ, zero, suc, ◌+◌, ◌*◌, ◌^◌, min, Bool, true, false, ◌&&◌,
  Option, none, some, List, ◌∷◌, ◌++◌,
}
use tenderbase_api.Prelude.Text.{Text, codes, text_eq, is_empty}
use tenderbase_api.Urls.{Parts, UrlCheck, UrlError, text_or_empty, validate_url}
use tenderbase_api.Fetcher.{
  Env, FetchError, FetchPolicy, FetchResult, SourcePolicy, World, exhausted, http_error, retryable,
  robots_disallowed, url_error,
}
use tenderbase_api.Fetcher.Politeness.{acquire, robots_allowed}
use tenderbase_api.Fetcher.Response.{read_answer, read_response, require_safe}

-- The request is made, and its time passes.
abbrev pub sent : Env → Text → World → World
sent env url w = record w { now = w.now + (env.send w.requests url).1; requests = url ∷ w.requests }

unfoldable pub attempt : Env → Text → ℕ → List Text → World → Result FetchError FetchResult × World
unfolding read_response
attempt env url max_bytes allowed_types w =
    (read_answer env max_bytes allowed_types (env.send w.requests url).0, sent env url w)

-- What the loop's first `except` catches.
abbrev pub is_caught : FetchError → Bool
is_caught (retryable status) = true
is_caught http_error = true
is_caught e = false

-- `_backoff`
unfoldable pub backoff : Env → List Text → ℕ → ℕ
backoff env requests n = min 30000000 (env.uniform requests 0 (env.backoff_base * 2 ^ n))

abbrev pub waited : Env → ℕ → World → World
waited env n w = record w { now = w.now + backoff env w.requests n }

-- What one fetch keeps fixed while it tries.
pub record Plan : Type 0 where
  pub url : Text
  pub host : Text
  pub per_minute : ℕ
  pub max_retries : ℕ
  pub max_bytes : ℕ
  pub allowed_types : List Text

abbrev pub try_once : Env → Plan → World → Result FetchError FetchResult × World
try_once env p w = attempt env p.url p.max_bytes p.allowed_types (acquire env p.host p.per_minute w)

abbrev pub Outcome : Type 0
Outcome = Result FetchError FetchResult × World

abbrev pub again : Outcome → (FetchError → World → Outcome) → Outcome
again (ok r, w) retry = (ok r, w)
again (err e, w) retry = if is_caught e then retry e w else (err e, w)

-- The loop from attempt `n` on, with `left` attempts to go after it
unfoldable pub attempts : Env → Plan → ℕ → ℕ → World → Outcome
unfolding attempt acquire backoff
attempts env p n zero w = again (try_once env p w) (λ e w'. (err (exhausted e), w'))
attempts env p n (suc left) w =
    again (try_once env p w) (λ e w'. attempts env p (n + 1) left (waited env n w'))

-- `a or b`
abbrev pub or_else : Option ℕ → ℕ → ℕ
or_else none b = b
or_else (some a) b = if a == 0 then b else a

abbrev pub given : {A : Type 0} → Option A → A → A
given none b = b
given (some a) b = a

abbrev source_respects : Option SourcePolicy → Bool
source_respects none = true
source_respects (some s) = text_eq s.robots_policy (codes "RESPECT")

abbrev pub respects_robots : Env → FetchPolicy → Option SourcePolicy → Bool
respects_robots env policy source =
    given policy.respect_robots (env.respect_robots && source_respects source)

abbrev source_rate : Option SourcePolicy → Option ℕ
source_rate none = none
source_rate (some s) = s.rate_limit_per_minute

abbrev pub plan_of : Env → FetchPolicy → Option SourcePolicy → UrlCheck → Text → Plan
plan_of env policy source c netloc = record {
  url = c.url;
  host = if is_empty (text_or_empty c.host) then netloc else text_or_empty c.host;
  per_minute =
      or_else policy.rate_limit_per_minute (or_else (source_rate source) env.default_per_minute);
  max_retries = given policy.max_retries env.max_retries;
  max_bytes = or_else policy.max_bytes env.max_response_bytes;
  allowed_types = policy.allowed_content_types;
}

-- `f"{parts.scheme}://{parts.netloc}"`
abbrev pub host_key : Parts → Text
host_key p = p.scheme ++ codes "://" ++ p.netloc

abbrev pub run_plan : Env → Plan → Bool × World → Outcome
run_plan env p (false, w) = (err robots_disallowed, w)
run_plan env p (true, w) = attempts env p 0 p.max_retries w

abbrev pub fetch_checked :
    Env → FetchPolicy → Option SourcePolicy → UrlCheck → World → Result UrlError Parts → Outcome
fetch_checked env policy source c w (err e) = (err (url_error e), w)
fetch_checked env policy source c w (ok parts) =
    let plan = plan_of env policy source c parts.netloc in
    if respects_robots env policy source
    then run_plan env plan (robots_allowed env (host_key parts) c.url w)
    else run_plan env plan (true, w)

abbrev pub fetch_safe :
    Env → FetchPolicy → Option SourcePolicy → World → Result FetchError UrlCheck → Outcome
fetch_safe env policy source w (err e) = (err e, w)
fetch_safe env policy source w (ok c) = fetch_checked env policy source c w (env.lib.urlsplit c.url)

-- `HTTPFetcher.fetch`
unfoldable pub fetch : Env → FetchPolicy → Option SourcePolicy → Text → World → Outcome
unfolding validate_url attempts robots_allowed
fetch env policy source url w = fetch_safe env policy source w (require_safe env url)
