-- ===== src/Fetcher.antt =====
-- app/ingestion/fetcher.py: the fetcher over a network, a clock and a source of jitter that are
-- parameters. Moments are microseconds; the lock of a host is held while it is waited for, so the calls
-- for one host come one after the other.
pub mod Politeness
pub mod Response
pub mod Fetch
pub mod Stream
pub mod Contract
pub mod Sink
pub mod Retries
pub mod Spacing
use tenderbase_api.Prelude.{◌==◌, any, ℕ, Bool, Option, List, [], ◌∷◌}
use tenderbase_api.Prelude.Text.{Text}
use tenderbase_api.Urls.{Reason, UrlError, UrlLib}

abbrev pub retryable_status : List ℕ
retryable_status = 408 ∷ 425 ∷ 429 ∷ 500 ∷ 502 ∷ 503 ∷ 504 ∷ 509 ∷ 522 ∷ 524 ∷ []

abbrev pub is_retryable_status : ℕ → Bool
is_retryable_status status = any (λ s. s == status) retryable_status

pub data FetchError : Type 0 where
  unsafe_url : Option Reason → FetchError
  robots_disallowed : FetchError
  retryable permanent : ℕ → FetchError
  content_type_refused : Text → FetchError
  too_large : FetchError
  http_error : FetchError
  exhausted : FetchError → FetchError
  url_error : UrlError → FetchError

abbrev pub Bytes : Type 0
Bytes = List ℕ

-- A response whose body has not been read: `broken` when reading it raises `httpx.HTTPError` at its end.
pub record HttpResponse : Type 0 where
  pub url : Text
  pub status_code : ℕ
  pub content_type : Option Text
  pub content_length : Option Text
  pub chunks : List Bytes
  pub broken : Bool

-- robots.txt as its parser has read it, asked for an agent and a URL.
abbrev pub Robots : Type 0
Robots = Text → Text → Bool

-- The settings, the network and the clock. What the network answers, and in what time, depends on the
-- requests made before, the latest first; no answer is an `httpx.HTTPError`.
pub record Env : Type 0 where
  pub lib : UrlLib
  pub send : List Text → Text → Option HttpResponse × ℕ
  pub parse_robots : List Bytes → Option Robots
  pub uniform : List Text → ℕ → ℕ → ℕ
  pub allow_private_networks : Bool
  pub allowed_ports : List ℕ
  pub respect_robots : Bool
  pub user_agent : Text
  pub default_per_minute : ℕ
  pub max_retries : ℕ
  pub max_response_bytes : ℕ
  pub backoff_base : ℕ
  pub robots_ttl : ℕ

pub record World : Type 0 where
  pub now : ℕ
  pub requests : List Text
  pub next_allowed : List (Text × ℕ)
  pub robots : List (Text × (ℕ × Option Robots))

pub record FetchPolicy : Type 0 where
  pub max_retries : Option ℕ
  pub max_bytes : Option ℕ
  pub allowed_content_types : List Text
  pub respect_robots : Option Bool
  pub rate_limit_per_minute : Option ℕ

-- What the fetcher reads of a `SourceContext`
pub record SourcePolicy : Type 0 where
  pub rate_limit_per_minute : Option ℕ
  pub robots_policy : Text

pub record FetchResult : Type 0 where
  pub url : Text
  pub status_code : ℕ
  pub content_type : Text
  pub content : Bytes
