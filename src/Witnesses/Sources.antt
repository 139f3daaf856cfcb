-- ===== src/Witnesses/Sources.antt =====
-- Sources: their lifecycle, health and schedule on concrete rows.
use tenderbase_api.Prelude.{
  is_some, length, take, keep, All, ok, ◌≤◌, ◌≡◌, refl, true, false, none, some, List, [], ◌∷◌,
  ◌++◌, arith,
}
use tenderbase_api.Enums.{SourceLifecycle, VerificationStatus}
use tenderbase_api.Source.{Source}
use tenderbase_api.Source.Lifecycle.{Report, record_report, set_lifecycle, passes, move_to}
use tenderbase_api.Source.Lifecycle.Audit.{
  IsImported, verify, move, run, Reach, here, next, IsReason, Reach-audited,
}
use tenderbase_api.Source.Health.{update_health}
use tenderbase_api.Source.Health.Backoff.{IsRounding}
use tenderbase_api.Source.Due.{is_due, find_due_sources, candidates}
use tenderbase_api.Source.Due.Selection.{
  IsReady, IsSorted, find_due_sources-eq, find_due_sources_sound,
}
use tenderbase_api.Source.Due.Starvation.{IsBlocking, find_due_sources_starves}
use tenderbase_api.Witnesses.Fixtures.{imported, active_source, ascii, rounding}

abbrev passing : Report
passing = record { status = VerificationStatus.passed; duration_ms = 12; http_status = some 200 }

abbrev checked : Source
checked = record_report 10 passing imported

-- The source after a passed verification and the move to `ACTIVE`.
abbrev promoted : Source
promoted = record checked {
  lifecycle_status = SourceLifecycle.active;
  is_active = true;
  paused_at = none;
  paused_reason = none;
}

abbrev ran : Source
ran = update_health rounding 100 true 300 none promoted

is_imported : IsImported imported
is_imported = record { discovered_yet = refl; unverified_yet = refl; never_paused = refl }

promotion : set_lifecycle ascii 20 SourceLifecycle.active none checked ≡ ok promoted
unfolding set_lifecycle record_report move_to
promotion = refl

history : Reach imported ran
history =
    next
      (next (next here (verify 10 passing))
        (move ascii 20 SourceLifecycle.active none promoted promotion))
      (run rounding 100 true 300 none)

Reach-audited_example :
    (ran.lifecycle_status ≡ SourceLifecycle.active
      → (passes ran.verification_status ≡ true) × (is_some ran.verification_at ≡ true))
    × (ran.lifecycle_status ≡ SourceLifecycle.paused
        → (is_some ran.paused_at ≡ true) × IsReason ran.paused_reason × (ran.is_active ≡ false))
    × (is_some ran.paused_at ≡ true → ran.lifecycle_status ≡ SourceLifecycle.paused)
Reach-audited_example = Reach-audited is_imported history

ran-is_due : is_due 4000000000 true ran ≡ true
unfolding is_due update_health record_report
ran-is_due = refl

rounding-IsRounding : IsRounding rounding
rounding-IsRounding x = (omega arith, omega arith)

average_after :
    (update_health rounding 100 true 300 none active_source).average_response_time ≡ some 23000
unfolding update_health
average_after = refl

abbrev registry : List Source
registry = imported ∷ record active_source { priority = 2 } ∷ active_source ∷ []

find_due_sources-eq_example :
    find_due_sources 50 2 false true registry
    ≡ take 2 (keep (is_due 50 true) (candidates 2 false registry))
find_due_sources-eq_example = find_due_sources-eq 50 2 false true registry

find_due_sources_sound_example :
    (length (find_due_sources 50 2 false true registry) ≤ 2)
    × All (IsReady 50 true) (find_due_sources 50 2 false true registry)
    × IsSorted (find_due_sources 50 2 false true registry)
find_due_sources_sound_example = find_due_sources_sound 50 2 false true registry

-- Four sources of a higher priority that ran a moment ago.
abbrev busy : Source
busy = record active_source { priority = 1; last_run_at = some 49 }

busy-is_due : is_due 50 true busy ≡ false
unfolding is_due
busy-is_due = refl

abbrev crowd : List Source
crowd = busy ∷ busy ∷ busy ∷ busy ∷ []

is_blocking : IsBlocking 50 active_source busy
is_blocking = (refl, busy-is_due, omega arith)

find_due_sources_starves_example :
    find_due_sources 50 1 false true (crowd ++ active_source ∷ []) ≡ []
find_due_sources_starves_example =
    find_due_sources_starves 50 1 active_source crowd refl
      (is_blocking, (is_blocking, (is_blocking, (is_blocking, tt)))) (omega arith)
