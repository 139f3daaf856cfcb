-- ===== src/Retry/Bounds.antt =====
-- app/workers/retry.py: the bounds on a retry, the end of a job's tries, and the errors that the
-- decision reads.
use tenderbase_api.Prelude.{
  ltb, leb, if◌then◌else◌, ltb→lt, Bool-cases, ltb-not-leb, le_of_not_ltb, length, take, any, ℕ,
  zero, suc, ◌+◌, ◌-◌, ◌*◌, ◌^◌, ◌≤◌, ◌<◌, min, max, ◌≡◌, refl, sym, ap, subst, ◌∙◌, inl, inr, Bool,
  true, false, not, ◌&&◌, ◌||◌, Option, List, [], ◌∷◌, ◌++◌, map, arith,
}
use native.Mathlib.Nat.{mul-le-mul_left}
use tenderbase_api.Ingestion.Parser.{StageError, as_dict}
use tenderbase_api.Source.{Source}
use tenderbase_api.Ingestion.Run.{RunStats}
use tenderbase_api.Ingestion.Run.Finish.{SourceRun, IngestionJob, Clock, finish_run}
use tenderbase_api.Retry.{
  million, max_retry_delay, exponential_backoff_seconds, permanent_failure, RetrySettings,
  is_transient, decide_retry, tries,
}

min_le : (draw : ℕ) → min million draw ≤ million
min_le draw = omega arith

delay_le :
    (c m x draw : ℕ) (b : Bool)
    → c ≤ m
    → c ≤ x
    → ((if b then c * million else c * min million draw) ≤ m * million)
      × ((if b then c * million else c * min million draw) ≤ x * million)
delay_le c m x draw true h k = (omega (arith, h), omega (arith, k))
delay_le c m x draw false h k =
    let q = mul-le-mul_left c (min_le draw) in (omega (arith, h, q), omega (arith, k, q))

-- A delay never exceeds its ceiling, nor the exponential curve, whatever is drawn.
pub exponential_backoff_seconds_bounds :
    (attempt base_seconds max_seconds : ℕ) (jitter : Bool) (draw : ℕ)
    → (exponential_backoff_seconds attempt base_seconds max_seconds jitter draw
        ≤ max_seconds * million)
      × (exponential_backoff_seconds attempt base_seconds max_seconds jitter draw
          ≤ base_seconds * 2 ^ attempt * million)
unfolding exponential_backoff_seconds
exponential_backoff_seconds_bounds attempt base max_seconds jitter draw =
    delay_le (min max_seconds (base * 2 ^ attempt)) max_seconds (base * 2 ^ attempt) draw
      (not jitter || leb (min max_seconds (base * 2 ^ attempt)) 0) (omega arith) (omega arith)

-- A run is tried again only with a transient failure and a try left, and then after at most 900 s.
pub decide_retry-cases :
    (settings : RetrySettings) (draw : ℕ) (run : SourceRun) (job_try : ℕ)
    → ((decide_retry settings draw run job_try).retry
        ≡ (is_transient run.stats_errors && ltb (max 1 job_try) (max 1 settings.worker_max_tries)))
      × ((decide_retry settings draw run job_try).delay ≤ max_retry_delay * million)
unfolding decide_retry
decide_retry-cases settings draw run job_try = elim (Bool-cases (is_transient run.stats_errors)) [
  | inl t ↦ elim (Bool-cases (leb (max 1 settings.worker_max_tries) (max 1 job_try))) [
    | inl e ↦ (
      rw t (rw e (sym (ltb-not-leb (max 1 job_try) (max 1 settings.worker_max_tries) ∙ ap not e))),
      rw t (rw e (omega arith)),
    )
    | inr e ↦ (
      rw t (rw e (sym (ltb-not-leb (max 1 job_try) (max 1 settings.worker_max_tries) ∙ ap not e))),
      rw t (
          rw e
            (exponential_backoff_seconds_bounds (max 1 job_try - 1) settings.worker_retry_backoff
              max_retry_delay true draw).0),
    )
  ]
  | inr t ↦ (rw t refl, rw t (omega arith))
]

tries-transient :
    (fuel : ℕ) (settings : RetrySettings) (draw : ℕ) (run : SourceRun) (job_try : ℕ)
    → is_transient run.stats_errors ≡ true
    → 1 ≤ job_try
    → job_try ≤ max 1 settings.worker_max_tries
    → max 1 settings.worker_max_tries < fuel + job_try
    → tries fuel settings draw run job_try + job_try ≡ max 1 settings.worker_max_tries + 1
unfolding tries
tries-transient zero settings draw run job_try t p q f = absurd (omega (arith, q, f))
tries-transient (suc fuel) settings draw run job_try t p q f =
    let later = tries fuel settings draw run (job_try + 1) in
    let allowed = max 1 settings.worker_max_tries in
    rw ((decide_retry-cases settings draw run job_try).0, t)
      (elim (Bool-cases (ltb (max 1 job_try) allowed)) [
        | inl e ↦
            let k = ltb→lt (max 1 job_try) allowed e in
            let h =
              tries-transient fuel settings draw run (job_try + 1) t (omega (arith, p))
                (omega (arith, k)) (omega (arith, f)) in
            rw e (omega (arith, h))
        | inr e ↦ let k = le_of_not_ltb (max 1 job_try) allowed e in rw e (omega (arith, k, p, q))
      ])

cancel : (a b : ℕ) → a + 1 ≡ b + 1 → a ≡ b
cancel a b h = omega (arith, h)

-- A job whose runs all end alike makes exactly `max(1, worker_max_tries)` tries where its errors are
-- transient, and exactly one where they are permanent; that many tries are enough fuel.
pub tries_exact :
    (fuel : ℕ) (settings : RetrySettings) (draw : ℕ) (run : SourceRun)
    → max 1 settings.worker_max_tries ≤ fuel
    → tries fuel settings draw run 1
      ≡ (if is_transient run.stats_errors then max 1 settings.worker_max_tries else 1)
unfolding tries
tries_exact zero settings draw run h = absurd (omega (arith, h))
tries_exact (suc fuel) settings draw run h = elim (Bool-cases (is_transient run.stats_errors)) [
  | inl t ↦
      let k =
        tries-transient (suc fuel) settings draw run 1 t (omega arith) (omega arith)
          (omega (arith, h)) in
      cancel (tries (suc fuel) settings draw run 1) (max 1 settings.worker_max_tries) k
      ∙ ap (λ z. if z then max 1 settings.worker_max_tries else 1) (sym t)
  | inr t ↦ rw t refl
]

sample_permanent :
    (xs later : List StageError)
    → any (λ e. e.retryable) xs ≡ false
    → any (λ e. e.retryable) (map as_dict (take (length xs) (xs ++ later))) ≡ false
sample_permanent [] later p = refl
sample_permanent (x ∷ xs) later p = elim (Bool-cases x.retryable) [
  | inl e ↦ absurd (ground (arith, e, p))
  | inr e ↦ rw e (sample_permanent xs later (rw e at p))
]

sample-is_transient :
    (n : ℕ) (xs later : List StageError)
    → length xs ≡ suc n
    → any (λ e. e.retryable) xs ≡ false
    → is_transient (map as_dict (take (length xs) (xs ++ later))) ≡ false
sample-is_transient n [] later h p = absurd (ground (arith, h))
sample-is_transient n (x ∷ xs) later h p = sample_permanent (x ∷ xs) later p

-- A run whose first ten errors are permanent is never tried again, whatever errors follow them: the
-- decision reads the ten errors that the row keeps.
pub decide_retry_sample :
    (c : Clock) (source : Source) (job : Option IngestionJob) (st : RunStats)
    (first_ten later : List StageError) (settings : RetrySettings) (draw job_try : ℕ)
    → st.errors ≡ first_ten ++ later
    → length first_ten ≡ 10
    → any (λ e. e.retryable) first_ten ≡ false
    → decide_retry settings draw (finish_run c source job st) job_try ≡ record {
      retry = false;
      delay = 0;
      attempts_used = max 1 job_try;
      attempts_allowed = max 1 settings.worker_max_tries;
      reason = permanent_failure;
    }
unfolding decide_retry finish_run
decide_retry_sample c source job st first_ten later settings draw job_try h n p =
    let k : is_transient (map as_dict (take 10 st.errors)) ≡ false = rw h (
      subst (λ m. is_transient (map as_dict (take m (first_ten ++ later))) ≡ false) n
        (sample-is_transient 9 first_ten later n p)) in
    rw k refl
