-- ===== src/Fetcher/Contract.antt =====
-- app/ingestion/fetcher.py: what a result of the fetcher has, and what has been written to a sink.
use tenderbase_api.Prelude.{
  ltb, leb, Bool-cases, lt_of_not_leb, le_of_not_ltb, length, length-append, Result, Gives,
  Gives-bind, Gives-then, Gives-result, ok, err, ℕ, zero, suc, ◌+◌, ◌≤◌, ◌<◌, ◌≡◌, refl, ap, subst,
  inl, inr, Bool, true, false, Option, none, some, List, [], ◌∷◌, arith,
}
use tenderbase_api.Prelude.Text.{Text}
use tenderbase_api.Urls.{UrlCheck, Parts, UrlError, is_ok, validate_url}
use tenderbase_api.Urls.Safety.{IsSafe, validate_url-IsSafe}
use tenderbase_api.Fetcher.{
  Bytes, Env, FetchError, FetchResult, HttpResponse, is_retryable_status, FetchPolicy, SourcePolicy,
  World, content_type_refused, permanent, retryable, too_large, unsafe_url, url_error,
}
use tenderbase_api.Fetcher.Politeness.{robots_allowed}
use tenderbase_api.Fetcher.Response.{
  raise_if, read_body, read_response, refuses_type, require_safe, declares_too_large, media_type,
  read_answer, raise_unsafe,
}
use tenderbase_api.Fetcher.Fetch.{
  Outcome, Plan, again, attempt, attempts, fetch_checked, fetch_safe, host_key, is_caught, or_else,
  plan_of, respects_robots, run_plan, try_once, waited, fetch,
}

abbrev pub IsAcceptable : Env → ℕ → List Text → FetchResult → Type 0
IsAcceptable env max_bytes allowed r =
    ((c : UrlCheck) × (require_safe env r.url ≡ ok c))
    × r.status_code < 400
    × is_retryable_status r.status_code ≡ false
    × refuses_type allowed r.content_type ≡ false
    × length r.content ≤ max_bytes

Gives-raise_if :
    {A : Type 0} (P : A → Type 0) (b : Bool) (e : FetchError) (r : Result FetchError A)
    → (b ≡ false → Gives P r)
    → Gives P (raise_if b e r)
Gives-raise_if P true e r f = tt
Gives-raise_if P false e r f = f refl

read_body-length :
    (m : ℕ) (broken : Bool) (total : ℕ) (cs : List Bytes)
    → total ≤ m
    → Gives (λ body. total + length body ≤ m) (read_body m broken total cs)
unfolding read_body
read_body-length m true total [] h = tt
read_body-length m false total [] h = omega (arith, h)
read_body-length m broken total (c ∷ cs) h = elim (Bool-cases (ltb m (total + length c))) [
  | inl y ↦ rw y tt
  | inr y ↦ rw y (
      Gives-then (λ body. total + length c + length body ≤ m) (λ body. total + length body ≤ m)
        (read_body m broken (total + length c) cs) _
        (read_body-length m broken (total + length c) cs (le_of_not_ltb m (total + length c) y))
        λ body k. omega (arith, k, length-append c body))
]

read_response-IsAcceptable :
    (env : Env) (m : ℕ) (allowed : List Text) (r : HttpResponse)
    → Gives (IsAcceptable env m allowed) (read_response env m allowed r)
unfolding read_response
read_response-IsAcceptable env m allowed r =
    let P = IsAcceptable env m allowed in
    let content_type = media_type env.lib r.content_type in
    Gives-bind P (require_safe env r.url) _ λ c y.
      Gives-raise_if P (is_retryable_status r.status_code) (retryable r.status_code) _ λ retry.
        Gives-raise_if P (leb 400 r.status_code) (permanent r.status_code) _ λ status.
          Gives-raise_if P (refuses_type allowed content_type) (content_type_refused content_type) _
            λ type_. Gives-raise_if P (declares_too_large m r.content_length) too_large _ λ _.
              Gives-then (λ body. 0 + length body ≤ m) P (read_body m r.broken 0 r.chunks) _
                (read_body-length m r.broken 0 r.chunks (omega arith))
                λ body k.
                  ((c, y), lt_of_not_leb 400 r.status_code status, retry, type_, omega (arith, k))

read_answer-IsAcceptable :
    (env : Env) (m : ℕ) (allowed : List Text) (r : Option HttpResponse)
    → Gives (IsAcceptable env m allowed) (read_answer env m allowed r)
read_answer-IsAcceptable env m allowed none = tt
read_answer-IsAcceptable env m allowed (some r) = read_response-IsAcceptable env m allowed r

again-Gives :
    (P : FetchResult → Type 0) (o : Outcome) (retry : FetchError → World → Outcome)
    → Gives P o.0
    → ((e : FetchError) (w : World) → Gives P (retry e w).0)
    → Gives P (again o retry).0
again-Gives P (ok r, w) retry h f = h
again-Gives P (err e, w) retry h f = elim (Bool-cases (is_caught e)) [
  | inl y ↦ rw y (f e w)
  | inr y ↦ rw y tt
]

attempts-IsAcceptable :
    (env : Env) (p : Plan) (n left : ℕ) (w : World)
    → Gives (IsAcceptable env p.max_bytes p.allowed_types) (attempts env p n left w).0
unfolding attempts attempt
attempts-IsAcceptable env p n zero w =
    again-Gives _ (try_once env p w) _ (read_answer-IsAcceptable env p.max_bytes p.allowed_types _)
      (λ e w'. tt)
attempts-IsAcceptable env p n (suc left) w =
    again-Gives _ (try_once env p w) _ (read_answer-IsAcceptable env p.max_bytes p.allowed_types _)
      (λ e w'. attempts-IsAcceptable env p (n + 1) left (waited env n w'))

run_plan-IsAcceptable :
    (env : Env) (p : Plan) (permitted : Bool × World)
    → Gives (IsAcceptable env p.max_bytes p.allowed_types) (run_plan env p permitted).0
run_plan-IsAcceptable env p (false, w) = tt
run_plan-IsAcceptable env p (true, w) = attempts-IsAcceptable env p 0 p.max_retries w

fetch_checked-IsAcceptable :
    (env : Env) (policy : FetchPolicy) (source : Option SourcePolicy) (c : UrlCheck) (w : World)
    (parts : Result UrlError Parts)
    → Gives
        (IsAcceptable env
          (or_else policy.max_bytes env.max_response_bytes)
          policy.allowed_content_types)
        (fetch_checked env policy source c w parts).0
fetch_checked-IsAcceptable env policy source c w (err e) = tt
fetch_checked-IsAcceptable env policy source c w (ok parts) =
    elim (Bool-cases (respects_robots env policy source)) [
      | inl y ↦ rw y (
          run_plan-IsAcceptable env (plan_of env policy source c parts.netloc)
            (robots_allowed env (host_key parts) c.url w))
      | inr y ↦
          rw y (run_plan-IsAcceptable env (plan_of env policy source c parts.netloc) (true, w))
    ]

fetch_safe-IsAcceptable :
    (env : Env) (policy : FetchPolicy) (source : Option SourcePolicy) (w : World)
    (c : Result FetchError UrlCheck)
    → Gives
        (IsAcceptable env
          (or_else policy.max_bytes env.max_response_bytes)
          policy.allowed_content_types)
        (fetch_safe env policy source w c).0
fetch_safe-IsAcceptable env policy source w (err e) = tt
fetch_safe-IsAcceptable env policy source w (ok c) =
    fetch_checked-IsAcceptable env policy source c w (env.lib.urlsplit c.url)

abbrev as_ok : {A : Type 0} → A → Result FetchError A
as_ok a = ok a

injective : {A : Type 0} (b a : A) → as_ok b ≡ as_ok a → b ≡ a
injective b a e = ground (arith, e)

not_ok : {A : Type 0} (x : FetchError) (a : A) → err x ≡ as_ok a → ⊥
not_ok x a e = absurd (ground (arith, e))

raise_unsafe-ok :
    (v : Result UrlError UrlCheck) (c : UrlCheck)
    → raise_unsafe v ≡ ok c
    → v ≡ ok c × is_ok c ≡ true
raise_unsafe-ok (err e) c h = absurd (not_ok (url_error e) c h)
raise_unsafe-ok (ok d) c h = elim (Bool-cases (is_ok d)) [
  | inl y ↦
      let q : as_ok d ≡ ok c = rw y at h in
      (ap ok (injective d c q), subst (λ z. is_ok z ≡ true) (injective d c q) y)
  | inr y ↦ absurd (not_ok (unsafe_url d.reason) c (rw y at h))
]

-- The URL passes the check, and what a checked URL has.
abbrev pub IsSafeUrl : Env → Text → Type 0
IsSafeUrl env url =
    (c : UrlCheck) × (require_safe env url ≡ ok c)
    × ((p : Parts) × (env.lib.urlsplit c.url ≡ ok p) × IsSafe env.lib env.allowed_ports c.url p c)

require_safe-IsSafeUrl :
    (env : Env) (url : Text) (c : UrlCheck)
    → env.allow_private_networks ≡ false
    → require_safe env url ≡ ok c
    → IsSafeUrl env url
require_safe-IsSafeUrl env url c private e =
    let (v, k) =
      raise_unsafe-ok (validate_url env.lib env.allow_private_networks true env.allowed_ports url) c
        e in
    (
      c,
      e,
      validate_url-IsSafe env.lib env.allowed_ports url c
          (subst (λ b. validate_url env.lib b true env.allowed_ports url ≡ ok c) private v) k,
    )

-- With private networks not allowed, a fetch that comes back gives a response whose final URL, the one
-- after all redirects, has an allowed scheme and port and a public host; whose status is below 400 and
-- not one to retry; whose content type is not refused by the policy; and whose content is no larger than
-- the policy's limit, or the settings' one where the policy has none.
pub fetch-IsAcceptable :
    (env : Env) (policy : FetchPolicy) (source : Option SourcePolicy) (url : Text) (w : World)
    (r : FetchResult)
    → env.allow_private_networks ≡ false
    → (fetch env policy source url w).0 ≡ ok r
    → IsSafeUrl env r.url
      × r.status_code < 400
      × is_retryable_status r.status_code ≡ false
      × refuses_type policy.allowed_content_types r.content_type ≡ false
      × length r.content ≤ or_else policy.max_bytes env.max_response_bytes
unfolding fetch
fetch-IsAcceptable env policy source url w r private e =
    let ((c, final), status, retry, type_, size) =
      Gives-result
        (IsAcceptable env (or_else policy.max_bytes env.max_response_bytes)
          policy.allowed_content_types)
        (fetch env policy source url w).0 r
        (fetch_safe-IsAcceptable env policy source w (require_safe env url)) e in
    (require_safe-IsSafeUrl env r.url c private final, status, retry, type_, size)
