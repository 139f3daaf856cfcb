-- ===== src/Fetcher/Response.antt =====
-- app/ingestion/fetcher.py: what is checked of a response, in `_attempt`.
use tenderbase_api.Prelude.{
  ltb, leb, if◌then◌else◌, length, all, Result, ◌>>=◌, ok, err, ℕ, ◌+◌, ◌-◌, ◌*◌, Bool, true, false,
  not, ◌&&◌, Option, none, some, List, [], ◌∷◌, ◌++◌,
}
use tenderbase_api.Prelude.Text.{Text, is_empty, elem, before}
use tenderbase_api.Urls.{UrlCheck, UrlError, UrlLib, is_ok, strip, text_or_empty, validate_url}
use tenderbase_api.Fetcher.{
  Bytes, Env, FetchError, FetchResult, HttpResponse, content_type_refused, http_error,
  is_retryable_status, permanent, retryable, too_large, unsafe_url, url_error,
}

-- `(header or "").split(";")[0].strip().lower()`
abbrev pub media_type : UrlLib → Option Text → Text
media_type lib header = lib.unicode.lower (strip lib (before 59 (text_or_empty header)))

abbrev pub refuses_type : List Text → Text → Bool
refuses_type allowed content_type =
    ltb 0 (length allowed) && not (is_empty content_type) && not (elem content_type allowed)

abbrev is_digit : ℕ → Bool
is_digit c = leb 48 c && leb c 57

abbrev pub number : ℕ → Text → ℕ
number n [] = n
number n (c ∷ s) = number (10 * n + (c - 48)) s

-- `declared and declared.isdigit() and int(declared) > max_bytes`: a header is ASCII.
abbrev pub declares_too_large : ℕ → Option Text → Bool
declares_too_large max_bytes none = false
declares_too_large max_bytes (some s) =
    not (is_empty s) && all is_digit s && ltb max_bytes (number 0 s)

-- The loop over the chunks, from the bytes read so far.
unfoldable pub read_body : ℕ → Bool → ℕ → List Bytes → Result FetchError Bytes
read_body max_bytes broken total [] = if broken then err http_error else ok []
read_body max_bytes broken total (chunk ∷ chunks) =
    let rest = read_body max_bytes broken (total + length chunk) chunks in
    if ltb max_bytes (total + length chunk)
    then err too_large
    else (rest >>= λ body. ok (chunk ++ body))

abbrev pub raise_unsafe : Result UrlError UrlCheck → Result FetchError UrlCheck
raise_unsafe (ok c) = if is_ok c then ok c else err (unsafe_url c.reason)
raise_unsafe (err e) = err (url_error e)

-- `validate_url` under the fetcher's settings, and the exception that the fetcher raises of it
abbrev pub require_safe : Env → Text → Result FetchError UrlCheck
require_safe env url =
    raise_unsafe (validate_url env.lib env.allow_private_networks true env.allowed_ports url)

-- An early `raise`.
abbrev pub raise_if : {A : Type 0} → Bool → FetchError → Result FetchError A → Result FetchError A
raise_if true e rest = err e
raise_if false e rest = rest

-- `_attempt`, once there is a response
unfoldable pub read_response : Env → ℕ → List Text → HttpResponse → Result FetchError FetchResult
unfolding validate_url read_body
read_response env max_bytes allowed_types r =
    let content_type = media_type env.lib r.content_type in
    require_safe env r.url >>= λ _.
    raise_if (is_retryable_status r.status_code) (retryable r.status_code) (
      raise_if (leb 400 r.status_code) (permanent r.status_code) (
        raise_if (refuses_type allowed_types content_type) (content_type_refused content_type) (
          raise_if (declares_too_large max_bytes r.content_length) too_large (
            read_body max_bytes r.broken 0 r.chunks >>= λ body. ok (record {
              url = r.url;
              status_code = r.status_code;
              content_type = content_type;
              content = body;
            })))))

abbrev pub read_answer : Env → ℕ → List Text → Option HttpResponse → Result FetchError FetchResult
read_answer env max_bytes allowed_types none = err http_error
read_answer env max_bytes allowed_types (some r) = read_response env max_bytes allowed_types r
