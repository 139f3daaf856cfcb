-- ===== src/Source/Health/Backoff.antt =====
-- app/ingestion/pipeline.py, app/ingestion/discovery.py: how the outcome of a run sets when its
-- source is due next.
use native.Mathlib.Nat.{mul-le-mul_left}
use tenderbase_api.Prelude.{
  leb, ℕ, ◌+◌, ◌*◌, ◌≤◌, ◌≡◌, Bool, true, false, Option, none, some, arith,
}
use tenderbase_api.Enums.{schedulable}
use tenderbase_api.Source.{Source}
use tenderbase_api.Source.Health.{health_for_failures, update_health}
use tenderbase_api.Source.Due.{backoff_multiplier, minute, is_due}

-- The failures in a row that a run leaves.
abbrev pub failures_after : Bool → ℕ → ℕ
failures_after true n = 0
failures_after false n = n + 1

-- The microseconds between two crawls of a source with `n` failures in a row.
abbrev pub crawl_interval : ℕ → ℕ → ℕ
crawl_interval frequency n = minute * (frequency * backoff_multiplier (health_for_failures n))

backoff_multiplier_mono :
    (n m : ℕ)
    → n ≤ m
    → backoff_multiplier (health_for_failures n) ≤ backoff_multiplier (health_for_failures m)
unfolding health_for_failures
backoff_multiplier_mono n m h = ground arith

crawl_interval_mono : (f n m : ℕ) → n ≤ m → crawl_interval f n ≤ crawl_interval f m
crawl_interval_mono f n m h =
    mul-le-mul_left minute (mul-le-mul_left f (backoff_multiplier_mono n m h))

-- A source that is not paused and may be scheduled is due again after a run exactly when its crawl
-- interval has passed, times 1 with no failure in a row, 2 from one, 4 from four, 12 from ten;
-- more failures never shorten it.
pub update_health-is_due :
    (round : ℕ → ℕ) (now later duration_ms : ℕ) (succeeded : Bool) (http_status : Option ℕ)
    (s : Source)
    → s.paused_at ≡ none
    → schedulable s.lifecycle_status ≡ true
    → let failures = failures_after succeeded s.consecutive_failures in
      (is_due later true (update_health round now succeeded duration_ms http_status s)
        ≡ leb (now + crawl_interval s.crawl_frequency_minutes failures) later)
      × ((m : ℕ)
          → failures ≤ m
          → crawl_interval s.crawl_frequency_minutes failures
            ≤ crawl_interval s.crawl_frequency_minutes m)
unfolding update_health is_due health_for_failures
update_health-is_due round now later d true http s free may =
    (rw (free, may), λ m h. crawl_interval_mono s.crawl_frequency_minutes _ m h)
update_health-is_due round now later d false http s free may =
    (rw (free, may), λ m h. crawl_interval_mono s.crawl_frequency_minutes _ m h)

-- Python's `round` to hundredths: off by half a hundredth at most.
abbrev pub IsRounding : (ℕ → ℕ) → Type 0
IsRounding round = (x : ℕ) → (10 * round x ≤ x + 5) × (x ≤ 10 * round x + 5)

-- The average response time of a source stays within any bounds that hold of the average before a
-- run and of the run's duration.
pub update_health-average_bounds :
    (round : ℕ → ℕ) (now duration_ms lo hi before after : ℕ) (succeeded : Bool)
    (http_status : Option ℕ) (s : Source)
    → IsRounding round
    → s.average_response_time ≡ some before
    → (update_health round now succeeded duration_ms http_status s).average_response_time
      ≡ some after
    → (lo ≤ before) × (before ≤ hi)
    → (lo ≤ 100 * duration_ms) × (100 * duration_ms ≤ hi)
    → (lo ≤ after) × (after ≤ hi)
unfolding update_health
update_health-average_bounds round now d lo hi before after succeeded http s r e e' b1 b2 =
    ground (arith, r (7 * before + 300 * d))
