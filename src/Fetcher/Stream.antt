-- ===== src/Fetcher/Stream.antt =====
-- app/ingestion/fetcher.py: `HTTPFetcher.stream_to`.
use tenderbase_api.Prelude.{
  ltb, leb, if◌then◌else◌, length, Result, ok, err, ℕ, ◌+◌, Bool, Option, none, some, List, [], ◌∷◌,
  ◌++◌,
}
use tenderbase_api.Prelude.Text.{Text}
use tenderbase_api.Urls.{UrlCheck, text_or_empty, validate_url}
use tenderbase_api.Fetcher.{
  Bytes, Env, FetchError, HttpResponse, World, content_type_refused, http_error,
  is_retryable_status, permanent, retryable, too_large,
}
use tenderbase_api.Fetcher.Politeness.{acquire}
use tenderbase_api.Fetcher.Response.{media_type, refuses_type, require_safe}
use tenderbase_api.Fetcher.Fetch.{sent}

-- What `stream_to` gives back, and what it has written to the sink, also where it raises.
pub record Streamed : Type 0 where
  pub url : Text
  pub status_code : ℕ
  pub content_type : Text
  pub size : ℕ

-- The loop of `stream_to`: a chunk is written once it is known to fit.
unfoldable pub write_body : ℕ → Bool → ℕ → List Bytes → Result FetchError ℕ × Bytes
write_body max_bytes broken total [] = (if broken then err http_error else ok total, [])
write_body max_bytes broken total (chunk ∷ chunks) =
    let rest = write_body max_bytes broken (total + length chunk) chunks in
    if ltb max_bytes (total + length chunk) then (err too_large, []) else (rest.0, chunk ++ rest.1)

abbrev pub streamed : Env → HttpResponse → Result FetchError ℕ → Result FetchError Streamed
streamed env r (err e) = err e
streamed env r (ok size) = ok (record {
  url = r.url;
  status_code = r.status_code;
  content_type = media_type env.lib r.content_type;
  size = size;
})

abbrev pub write_response :
    Env → ℕ → List Text → Option HttpResponse → Result FetchError Streamed × Bytes
write_response env max_bytes allowed_types none = (err http_error, [])
write_response env max_bytes allowed_types (some r) =
    let content_type = media_type env.lib r.content_type in
    let (size, sink) = write_body max_bytes r.broken 0 r.chunks in
    if leb 400 r.status_code
    then (
      err (
          if is_retryable_status r.status_code
          then retryable r.status_code
          else permanent r.status_code),
      [],
    )
    else if refuses_type allowed_types content_type
    then (err (content_type_refused content_type), [])
    else (streamed env r size, sink)

abbrev pub stream_safe :
    Env
    → ℕ
    → List Text
    → World
    → Result FetchError UrlCheck
    → Result FetchError Streamed × Bytes × World
stream_safe env max_bytes allowed_types w (err e) = (err e, [], w)
stream_safe env max_bytes allowed_types w (ok c) =
    let w' = acquire env (text_or_empty c.host) env.default_per_minute w in
    let (r, sink) = write_response env max_bytes allowed_types (env.send w'.requests c.url).0 in
    (r, sink, sent env c.url w')

-- `HTTPFetcher.stream_to`
unfoldable pub stream_to :
    Env → ℕ → List Text → Text → World → Result FetchError Streamed × Bytes × World
unfolding validate_url acquire write_body
stream_to env max_bytes allowed_types url w =
    stream_safe env max_bytes allowed_types w (require_safe env url)
