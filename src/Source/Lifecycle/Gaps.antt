-- ===== src/Source/Lifecycle/Gaps.antt =====
-- app/services/verification_service.py: where `set_lifecycle` does other than its comment says.
use tenderbase_api.Prelude.{ok, ℕ, ◌≡◌, ◌⊎◌, true, false, Option, none, arith}
use tenderbase_api.Prelude.Text.{Text, Unicode}
use tenderbase_api.Enums.{SourceLifecycle, degraded, verified}
use tenderbase_api.Source.{Source}
use tenderbase_api.Source.Lifecycle.{passes, set_lifecycle, move_to, pause_reason}
use tenderbase_api.Source.Due.{is_due}

-- A source that no verification ever passed can be moved to `VERIFIED` or to `DEGRADED`, and is
-- then active and, if it never ran, due at once.
pub set_lifecycle_unchecked :
    (u : Unicode) (now later : ℕ) (reason : Option Text) (target : SourceLifecycle) (s : Source)
    → (target ≡ verified) ⊎ (target ≡ degraded)
    → passes s.verification_status ≡ false
    → s.last_run_at ≡ none
    → (t : Source) × (set_lifecycle u now target reason s ≡ ok t)
      × (passes t.verification_status ≡ false)
      × (t.is_active ≡ true)
      × (is_due later true t ≡ true)
unfolding set_lifecycle is_due
set_lifecycle_unchecked u now later reason target s h bad never =
    (move_to now target (pause_reason u reason) s, ground arith, bad, ground arith, ground arith)
