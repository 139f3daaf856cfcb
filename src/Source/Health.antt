-- ===== src/Source/Health.antt =====
-- app/ingestion/pipeline.py: `_update_health` and `_health_for_failures`, what a finished run
-- leaves on its source.
pub mod Backoff
use tenderbase_api.Prelude.{
  leb, if◌then◌else◌, ℕ, zero, suc, ◌+◌, ◌*◌, Bool, true, false, Option, none, some,
}
use tenderbase_api.Enums.{HealthStatus, healthy, degraded, failing, offline}
use tenderbase_api.Source.{Source}

unfoldable pub health_for_failures : ℕ → HealthStatus
health_for_failures n =
    if leb 10 n then offline else if leb 4 n then failing else if leb 1 n then degraded else healthy

-- `round(previous * 0.7 + duration_ms * 0.3, 2)`: `round` gets thousandths and returns hundredths.
average : (ℕ → ℕ) → Option ℕ → ℕ → ℕ
average round none duration_ms = 100 * duration_ms
average round (some previous) duration_ms = round (7 * previous + 300 * duration_ms)

abbrev truthy : Option ℕ → Bool
truthy none = false
truthy (some zero) = false
truthy (some (suc _)) = true

-- The parameter `round` is Python's rounding of thousandths to hundredths.
unfoldable pub update_health : (ℕ → ℕ) → ℕ → Bool → ℕ → Option ℕ → Source → Source
unfolding health_for_failures average
update_health round now succeeded duration_ms http_status s = record s {
  last_run_at = some now;
  last_success_at = if succeeded then some now else s.last_success_at;
  last_failure_at = if succeeded then s.last_failure_at else some now;
  consecutive_failures = if succeeded then 0 else s.consecutive_failures + 1;
  health_status = if succeeded then healthy else health_for_failures (s.consecutive_failures + 1);
  average_response_time = some (average round s.average_response_time duration_ms);
  last_http_status = if truthy http_status then http_status else s.last_http_status;
}
