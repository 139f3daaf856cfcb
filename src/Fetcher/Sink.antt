-- ===== src/Fetcher/Sink.antt =====
-- app/ingestion/fetcher.py: what `stream_to` has written to its sink.
use tenderbase_api.Prelude.{
  ltb, leb, Bool-cases, lt_of_not_leb, le_of_not_ltb, length, length-append, Result, Gives,
  Gives-implied, Gives-result, ok, err, ℕ, ◌+◌, ◌≤◌, ◌<◌, ◌≡◌, inl, inr, Bool, true, false, Option,
  none, some, List, [], ◌∷◌, arith,
}
use tenderbase_api.Prelude.Text.{Text}
use tenderbase_api.Urls.{UrlCheck, text_or_empty}
use tenderbase_api.Fetcher.{Bytes, Env, FetchError, HttpResponse, World}
use tenderbase_api.Fetcher.Politeness.{acquire}
use tenderbase_api.Fetcher.Response.{media_type, refuses_type, require_safe}
use tenderbase_api.Fetcher.Fetch.{}
use tenderbase_api.Fetcher.Stream.{
  Streamed, stream_safe, stream_to, write_body, write_response, streamed,
}

-- What is written fits from `total` on, and a size that is given counts it.
abbrev Fits : ℕ → ℕ → Result FetchError ℕ × Bytes → Type 0
Fits m total r = total + length r.1 ≤ m × Gives (λ n. n ≡ total + length r.1) r.0

write_body-Fits :
    (m : ℕ) (broken : Bool) (total : ℕ) (cs : List Bytes)
    → total ≤ m
    → Fits m total (write_body m broken total cs)
unfolding write_body
write_body-Fits m true total [] h = (omega (arith, h), tt)
write_body-Fits m false total [] h = (omega (arith, h), omega arith)
write_body-Fits m broken total (c ∷ cs) h = elim (Bool-cases (ltb m (total + length c))) [
  | inl y ↦ rw y (omega (arith, h), tt)
  | inr y ↦
      let (k, l) =
        write_body-Fits m broken (total + length c) cs (le_of_not_ltb m (total + length c) y) in
      let sink = (write_body m broken (total + length c) cs).1 in
      rw y (
        omega (arith, k, length-append c sink),
        Gives-implied (write_body m broken (total + length c) cs).0 l
            (λ n q. omega (arith, q, length-append c sink)),
      )
]

-- The sink is within the limit, and a size that is given is that of the sink.
abbrev Reports : ℕ → Result FetchError Streamed → Bytes → Type 0
Reports m r sink = length sink ≤ m × Gives (λ s. s.size ≡ length sink × s.status_code < 400) r

streamed-Reports :
    (env : Env) (r : HttpResponse) (m : ℕ) (size : Result FetchError ℕ) (sink : Bytes)
    → r.status_code < 400
    → Fits m 0 (size, sink)
    → Reports m (streamed env r size) sink
streamed-Reports env r m (err e) sink s (k, l) = (omega (arith, k), tt)
streamed-Reports env r m (ok n) sink s (k, l) = (omega (arith, k), (omega (arith, l), s))

write_response-Reports :
    (env : Env) (m : ℕ) (allowed : List Text) (r : Option HttpResponse)
    → Reports m (write_response env m allowed r).0 (write_response env m allowed r).1
write_response-Reports env m allowed none = (omega arith, tt)
write_response-Reports env m allowed (some r) = elim (Bool-cases (leb 400 r.status_code)) [
  | inl y ↦ rw y (omega arith, tt)
  | inr y ↦ elim (Bool-cases (refuses_type allowed (media_type env.lib r.content_type))) [
    | inl z ↦ rw (y, z) (omega arith, tt)
    | inr z ↦
        rw (y, z)
          (streamed-Reports env r m (write_body m r.broken 0 r.chunks).0
            (write_body m r.broken 0 r.chunks).1 (lt_of_not_leb 400 r.status_code y)
            (write_body-Fits m r.broken 0 r.chunks (omega arith)))
  ]
]

stream_safe-Reports :
    (env : Env) (m : ℕ) (allowed : List Text) (w : World) (c : Result FetchError UrlCheck)
    → Reports m (stream_safe env m allowed w c).0 (stream_safe env m allowed w c).1
stream_safe-Reports env m allowed w (err e) = (omega arith, tt)
stream_safe-Reports env m allowed w (ok c) =
    write_response-Reports env m allowed
      (env.send (acquire env (text_or_empty c.host) env.default_per_minute w).requests c.url).0

-- `stream_to` writes at most `max_bytes` bytes to the sink, also where it raises in the middle of the
-- body.
pub stream_to-sink :
    (env : Env) (m : ℕ) (allowed : List Text) (url : Text) (w : World)
    → length (stream_to env m allowed url w).1 ≤ m
unfolding stream_to
stream_to-sink env m allowed url w = (stream_safe-Reports env m allowed w (require_safe env url)).0

-- Where `stream_to` comes back, the size that it reports is the number of bytes in the sink, at most
-- `max_bytes`, and the status is below 400.
pub stream_to-size :
    (env : Env) (m : ℕ) (allowed : List Text) (url : Text) (w : World) (s : Streamed)
    → (stream_to env m allowed url w).0 ≡ ok s
    → s.size ≡ length (stream_to env m allowed url w).1 × s.size ≤ m × s.status_code < 400
unfolding stream_to
stream_to-size env m allowed url w s e =
    let (k, l) = stream_safe-Reports env m allowed w (require_safe env url) in
    let (a, b) =
      Gives-result (λ s. s.size ≡ length (stream_to env m allowed url w).1 × s.status_code < 400)
        (stream_to env m allowed url w).0 s l e in
    (a, rw a k, b)
