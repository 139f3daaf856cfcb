-- ===== src/Source.antt =====
-- app/db/models/source.py: one row of `municipality_sources`, with the columns that the lifecycle,
-- the scheduler and the pipeline read or write. Moments are microseconds, and the average response
-- time is in hundredths of a millisecond, the precision that the pipeline rounds to.
pub mod Lifecycle
pub mod Health
pub mod Due
use tenderbase_api.Prelude.{ℕ, Bool, Option}
use tenderbase_api.Prelude.Text.{Text}
use tenderbase_api.Enums.{SourceLifecycle, VerificationStatus, HealthStatus}

pub record Source : Type 0 where
  pub id : ℕ
  pub municipality_id : Option ℕ
  pub is_active : Bool
  pub priority : ℕ
  pub crawl_frequency_minutes : ℕ
  pub last_run_at : Option ℕ
  pub last_success_at : Option ℕ
  pub last_failure_at : Option ℕ
  pub consecutive_failures : ℕ
  pub average_response_time : Option ℕ
  pub last_http_status : Option ℕ
  pub health_status : HealthStatus
  pub lifecycle_status : SourceLifecycle
  pub verification_status : VerificationStatus
  pub verification_at : Option ℕ
  pub verification_duration_ms : Option ℕ
  pub verification_http_status : Option ℕ
  pub paused_at : Option ℕ
  pub paused_reason : Option Text
