-- ===== src/Fetcher/Retries.antt =====
-- app/ingestion/fetcher.py: how often the loop of `fetch` tries, and what it ends with.
use tenderbase_api.Prelude.{
  ◌==◌, Bool-cases, Result, ok, err, ℕ, zero, suc, ◌+◌, ◌≤◌, ◌≡◌, refl, sym, ap, subst, ◌∙◌, ◌⊎◌,
  inl, inr, Bool, true, false, List, ◌∷◌, arith,
}
use tenderbase_api.Prelude.Text.{Text}
use tenderbase_api.Urls.{}
use tenderbase_api.Fetcher.{Env, FetchError, FetchResult, World, exhausted}
use tenderbase_api.Fetcher.Politeness.{acquire}
use tenderbase_api.Fetcher.Response.{read_answer}
use tenderbase_api.Fetcher.Fetch.{
  Outcome, Plan, again, attempt, attempts, is_caught, try_once, waited,
}

-- The requests after `n` more of one URL
abbrev pub repeat : ℕ → Text → List Text → List Text
repeat zero url rs = rs
repeat (suc n) url rs = repeat n url (url ∷ rs)

-- The answer to a plan's next request, after the requests `rs`
abbrev pub answer : Env → Plan → List Text → Result FetchError FetchResult
answer env p rs = read_answer env p.max_bytes p.allowed_types (env.send rs p.url).0

abbrev pub is_retried : Result FetchError FetchResult → Bool
is_retried (ok r) = false
is_retried (err e) = is_caught e

abbrev pub AreRetried : Env → Plan → ℕ → List Text → Type 0
AreRetried env p zero rs = Unit
AreRetried env p (suc k) rs = is_retried (answer env p rs) ≡ true × AreRetried env p k (p.url ∷ rs)

-- The last answer is the outcome, unless it would be retried and no attempt is left.
abbrev pub IsLast : Env → Plan → ℕ → ℕ → List Text → Result FetchError FetchResult → Type 0
IsLast env p k left rs r =
    (is_retried (answer env p rs) ≡ false × r ≡ answer env p rs)
    ⊎ (k ≡ left
        × ((e : FetchError) × (answer env p rs ≡ err e)
            × is_caught e ≡ true
            × r ≡ err (exhausted e)))

-- `k` answers are retried, and the one after them ends the loop.
abbrev pub EndsAfter : Env → Plan → ℕ → List Text → Outcome → ℕ → Type 0
EndsAfter env p left rs o k =
    k ≤ left
    × AreRetried env p k rs
    × o.1.requests ≡ repeat (suc k) p.url rs
    × IsLast env p k left (repeat k p.url rs) o.0

acquire-requests :
    (env : Env) (host : Text) (n : ℕ) (w : World) → (acquire env host n w).requests ≡ w.requests
unfolding acquire
acquire-requests env host n w = elim (Bool-cases (n == 0)) [ inl y ↦ rw y refl | inr y ↦ rw y refl ]

again-cases :
    (o : Outcome) (retry : FetchError → World → Outcome)
    → (is_retried o.0 ≡ false × again o retry ≡ o)
      ⊎ ((e : FetchError) × (o.0 ≡ err e) × is_caught e ≡ true × again o retry ≡ retry e o.1)
again-cases (ok r, w) retry = inl (refl, refl)
again-cases (err e, w) retry = elim (Bool-cases (is_caught e)) [
  | inl y ↦ inr (e, refl, y, rw y refl)
  | inr y ↦ inl (y, rw y refl)
]

try_once-answer :
    (env : Env) (p : Plan) (w : World)
    → (try_once env p w).0 ≡ answer env p w.requests
      × (try_once env p w).1.requests ≡ p.url ∷ w.requests
unfolding attempt
try_once-answer env p w = rw (acquire-requests env p.host p.per_minute w) (refl, refl)

EndsAfter-first :
    (env : Env) (p : Plan) (left : ℕ) (w : World)
    → is_retried (try_once env p w).0 ≡ false
    → EndsAfter env p left w.requests (try_once env p w) 0
EndsAfter-first env p left w h =
    let (a, b) = try_once-answer env p w in (omega arith, tt, b, inl (rw a at h, a))

EndsAfter-later :
    (env : Env) (p : Plan) (left : ℕ) (rs : List Text) (o : Outcome) (k : ℕ)
    → is_retried (answer env p rs) ≡ true
    → EndsAfter env p left (p.url ∷ rs) o k
    → EndsAfter env p (suc left) rs o (suc k)
EndsAfter-later env p left rs o k h (a, b, c, d) =
    (omega (arith, a), (h, b), c, elim d [ inl x ↦ inl x | inr (x, y) ↦ inr (ap suc x, y) ])

-- The loop with `left` attempts after the first one ends after some number of retried answers, at most
-- `left`, each to one request for the plan's URL; it makes one request more. Its outcome is the answer
-- to that request, unless this would be retried too: then no attempt is left and the loop raises the
-- error that wraps it.
pub attempts-ends :
    (env : Env) (p : Plan) (n left : ℕ) (w : World)
    → (k : ℕ) × EndsAfter env p left w.requests (attempts env p n left w) k
unfolding attempts
attempts-ends env p n zero w =
    elim (again-cases (try_once env p w) (λ e w'. (err (exhausted e), w'))) [
      | inl (y, q) ↦ (
        0,
        subst (λ o. EndsAfter env p zero w.requests o 0) (sym q) (EndsAfter-first env p zero w y),
      )
      | inr (e, r, y, q) ↦
          let (a, b) = try_once-answer env p w in
          (
            0,
            subst (λ o. EndsAfter env p zero w.requests o 0) (sym q)
                (omega arith, tt, b, inr (refl, (e, sym a ∙ r, y, refl))),
          )
    ]
attempts-ends env p n (suc left) w =
    elim (again-cases (try_once env p w) (λ e w'. attempts env p (n + 1) left (waited env n w'))) [
      | inl (y, q) ↦ (
        0,
        subst (λ o. EndsAfter env p (suc left) w.requests o 0) (sym q)
            (EndsAfter-first env p (suc left) w y),
      )
      | inr (e, r, y, q) ↦
          let (a, b) = try_once-answer env p w in
          let (k, h) = attempts-ends env p (n + 1) left (waited env n (try_once env p w).1) in
          (
            suc k,
            subst (λ o. EndsAfter env p (suc left) w.requests o (suc k)) (sym q)
                (EndsAfter-later env p left w.requests
                  (attempts env p (n + 1) left (waited env n (try_once env p w).1)) k
                  (subst (λ x. is_retried x ≡ true) (sym r ∙ a) y)
                  (subst
                    (λ rs.
                      EndsAfter env p left rs
                        (attempts env p (n + 1) left (waited env n (try_once env p w).1)) k)
                    b h)),
          )
    ]
