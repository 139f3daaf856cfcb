-- ===== src/Fetcher/Spacing.antt =====
-- app/ingestion/fetcher.py: the limiter keeps the calls for one host apart.
use native.Mathlib.Nat.{mul-le-mul_left}
use tenderbase_api.Prelude.{
  ◌==◌, Bool-cases, ℕ, ◌+◌, ◌*◌, ◌/◌, ◌≤◌, ◌≡◌, refl, subst, ◌∙◌, inl, inr, false, List, [], ◌∷◌,
  arith,
}
use tenderbase_api.Prelude.Text.{Text, text_eq, text_eq_refl}
use tenderbase_api.Urls.{}
use tenderbase_api.Fetcher.{Env, World}
use tenderbase_api.Fetcher.Politeness.{acquire, next_allowed_of}

-- The calls for other hosts, in turn, each at its rate and after some time
unfoldable pub acquire_each : Env → List (Text × ℕ × ℕ) → World → World
unfolding acquire
acquire_each env [] w = w
acquire_each env ((host, per_minute, later) ∷ rest) w =
    acquire_each env rest (acquire env host per_minute (record w { now = w.now + later }))

abbrev pub AreOther : Text → List (Text × ℕ × ℕ) → Type 0
AreOther host [] = Unit
AreOther host ((h, n, later) ∷ rest) = text_eq h host ≡ false × AreOther host rest

acquire-other :
    (env : Env) (host h : Text) (n : ℕ) (w : World)
    → text_eq h host ≡ false
    → next_allowed_of host (acquire env h n w).next_allowed ≡ next_allowed_of host w.next_allowed
unfolding acquire next_allowed_of
acquire-other env host h n w e = elim (Bool-cases (n == 0)) [
  | inl y ↦ rw y refl
  | inr y ↦ rw y (rw e refl)
]

acquire_each-other :
    (env : Env) (host : Text) (others : List (Text × ℕ × ℕ)) (w : World)
    → AreOther host others
    → next_allowed_of host (acquire_each env others w).next_allowed
      ≡ next_allowed_of host w.next_allowed
unfolding acquire_each
acquire_each-other env host [] w h = refl
acquire_each-other env host ((h, n, later) ∷ rest) w (e, es) =
    let w' = record w { now = w.now + later } in
    acquire_each-other env host rest (acquire env h n w') es ∙ acquire-other env host h n w' e

-- Not before the moment that the host is allowed
acquire-waits :
    (env : Env) (host : Text) (n : ℕ) (w : World)
    → (n == 0) ≡ false
    → next_allowed_of host w.next_allowed ≤ (acquire env host n w).now
unfolding acquire
acquire-waits env host n w h = rw h (omega arith)

acquire-next :
    (env : Env) (host : Text) (n : ℕ) (w : World)
    → (n == 0) ≡ false
    → next_allowed_of host (acquire env host n w).next_allowed
      ≡ (acquire env host n w).now + 60000000 / n * env.uniform w.requests 900 1150 / 1000
unfolding acquire next_allowed_of
acquire-next env host n w h = rw h (rw (text_eq_refl host) refl)

-- Two calls of the limiter for one host at a positive rate, with any calls for other hosts between
-- them, come back at least nine tenths of a minute's share apart, where the jitter is within its bounds.
pub acquire-apart :
    (env : Env) (host : Text) (n : ℕ) (w : World) (others : List (Text × ℕ × ℕ))
    → 1 ≤ n
    → 900 ≤ env.uniform w.requests 900 1150
    → AreOther host others
    → (acquire env host n w).now + 60000000 / n * 900 / 1000
      ≤ (acquire env host n (acquire_each env others (acquire env host n w))).now
acquire-apart env host n w others p j h =
    let z = positive n p in
    let k = acquire_each-other env host others (acquire env host n w) h in
    let l = acquire-waits env host n (acquire_each env others (acquire env host n w)) z in
    let m = acquire-next env host n w z in
    scaled (60000000 / n) (env.uniform w.requests 900 1150) j (acquire env host n w).now
      (acquire env host n (acquire_each env others (acquire env host n w))).now
      (subst (λ t. t ≤ (acquire env host n (acquire_each env others (acquire env host n w))).now)
        (k ∙ m) l)
  where
    scaled : (s u : ℕ) → 900 ≤ u → (t x : ℕ) → t + s * u / 1000 ≤ x → t + s * 900 / 1000 ≤ x
    scaled s u j t x h = omega (arith, mul-le-mul_left s j, h)

    positive : (n : ℕ) → 1 ≤ n → (n == 0) ≡ false
    positive n p = ground arith
