-- ===== src/Source/Lifecycle.antt =====
-- app/services/verification_service.py: `SourceVerificationService._record` and `set_lifecycle`,
-- the two operations that move a source through its lifecycle.
pub mod Audit
pub mod Gaps
use tenderbase_api.Prelude.{
  if◌then◌else◌, take, Result, ok, err, ℕ, Bool, true, false, not, ◌&&◌, Option, none, some, [],
}
use tenderbase_api.Prelude.Text.{Text, Unicode, is_empty, strip_by}
use tenderbase_api.Enums.{
  SourceLifecycle, discovered, pending_verification, verified, active, degraded, paused, disabled,
  VerificationStatus, unverified, passed, passed_with_warnings, failed, schedulable,
}
use tenderbase_api.Source.{Source}

-- What a verification run reports to the row.
pub record Report : Type 0 where
  pub status : VerificationStatus
  pub duration_ms : ℕ
  pub http_status : Option ℕ

-- `ValidationError` with its code.
pub data LifecycleError : Type 0 where
  source_not_verified reason_required : LifecycleError

abbrev pub passes : VerificationStatus → Bool
passes passed = true
passes passed_with_warnings = true
passes _ = false

-- The lifecycle that a report leads to.
abbrev pub after_report : Bool → SourceLifecycle → SourceLifecycle
after_report true discovered = verified
after_report true pending_verification = verified
after_report false active = degraded
after_report _ lifecycle = lifecycle

-- `_record`
unfoldable pub record_report : ℕ → Report → Source → Source
record_report now report s = record s {
  verification_status = report.status;
  verification_at = some now;
  verification_duration_ms = some report.duration_ms;
  verification_http_status = report.http_status;
  lifecycle_status = after_report (passes report.status) s.lifecycle_status;
}

abbrev is_active_target : SourceLifecycle → Bool
is_active_target active = true
is_active_target _ = false

abbrev is_paused_target : SourceLifecycle → Bool
is_paused_target paused = true
is_paused_target _ = false

-- `(reason or "").strip()`
abbrev pub pause_reason : Unicode → Option Text → Text
pause_reason u none = []
pause_reason u (some r) = strip_by u.is_space r

-- The assignments at the end of `set_lifecycle`.
unfoldable pub move_to : ℕ → SourceLifecycle → Text → Source → Source
move_to now target reason s = record s {
  lifecycle_status = target;
  is_active = schedulable target;
  paused_at = if is_paused_target target then some now else none;
  paused_reason = if is_paused_target target then some (take 500 reason) else none;
}

-- `set_lifecycle`
unfoldable pub set_lifecycle :
    Unicode → ℕ → SourceLifecycle → Option Text → Source → Result LifecycleError Source
unfolding move_to
set_lifecycle u now target reason s =
    if is_active_target target && not (passes s.verification_status)
    then err source_not_verified
    else if is_paused_target target && is_empty (pause_reason u reason)
    then err reason_required
    else ok (move_to now target (pause_reason u reason) s)
