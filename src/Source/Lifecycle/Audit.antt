-- ===== src/Source/Lifecycle/Audit.antt =====
-- What holds of every source that the lifecycle operations and the runs can produce from an
-- import: who is active was verified, and who is paused says when and why.
use tenderbase_api.Prelude.{
  is_some, length, take, length-take, ok, ℕ, ◌≤◌, ◌≡◌, refl, ◌≢◌, ◌⊎◌, Bool, true, false, Option,
  none, some, [], ◌∷◌, arith,
}
use tenderbase_api.Prelude.Text.{Text, Unicode, is_empty}
use tenderbase_api.Enums.{
  SourceLifecycle, discovered, verified, active, degraded, paused, unverified,
}
use tenderbase_api.Source.{Source}
use tenderbase_api.Source.Lifecycle.{
  Report, passes, record_report, pause_reason, move_to, set_lifecycle,
}
use tenderbase_api.Source.Health.{update_health}
use tenderbase_api.Source.Due.{is_due}

-- The reason that a pause leaves behind.
abbrev pub IsReason : Option Text → Type 0
IsReason none = ⊥
IsReason (some r) = (is_empty r ≡ false) × (length r ≤ 500)

pub record IsAudited (s : Source) : Type 0 where
  pub active_passes : s.lifecycle_status ≡ active → passes s.verification_status ≡ true
  pub passes_dated : passes s.verification_status ≡ true → is_some s.verification_at ≡ true
  pub paused_stamped : s.lifecycle_status ≡ paused → is_some s.paused_at ≡ true
  pub paused_reasoned : s.lifecycle_status ≡ paused → IsReason s.paused_reason
  pub stamped_paused : is_some s.paused_at ≡ true → s.lifecycle_status ≡ paused
  pub paused_inactive : s.lifecycle_status ≡ paused → s.is_active ≡ false

-- An import: `DISCOVERED`, `UNVERIFIED` and never paused.
pub record IsImported (s : Source) : Type 0 where
  pub discovered_yet : s.lifecycle_status ≡ discovered
  pub unverified_yet : s.verification_status ≡ unverified
  pub never_paused : s.paused_at ≡ none

-- The operations that change a source.
pub data Step (s : Source) : Source → Type 0 where
  verify : (now : ℕ) (report : Report) → Step s (record_report now report s)
  move :
      (u : Unicode) (now : ℕ) (target : SourceLifecycle) (reason : Option Text) (t : Source)
      → set_lifecycle u now target reason s ≡ ok t
      → Step s t
  run :
      (round : ℕ → ℕ) (now : ℕ) (succeeded : Bool) (duration_ms : ℕ) (http_status : Option ℕ)
      → Step s (update_health round now succeeded duration_ms http_status s)

pub data Reach (s : Source) : Source → Type 0 where
  here : Reach s s
  next : {t v : Source} → Reach s t → Step t v → Reach s v

IsReason-take : (r : Text) → is_empty r ≡ false → IsReason (some (take 500 r))
IsReason-take [] h = absurd (ground arith)
IsReason-take (c ∷ r) h = (refl, length-take 500 (c ∷ r))

record_report-IsAudited :
    (now : ℕ) (report : Report) (s : Source) → IsAudited s → IsAudited (record_report now report s)
unfolding record_report
record_report-IsAudited now report s h = ground arith

-- What a move that is not refused has checked, and what it returns.
set_lifecycle_ok :
    (u : Unicode) (now : ℕ) (target : SourceLifecycle) (reason : Option Text) (s t : Source)
    → set_lifecycle u now target reason s ≡ ok t
    → (t ≡ move_to now target (pause_reason u reason) s)
      × (target ≡ active → passes s.verification_status ≡ true)
      × (target ≡ paused → is_empty (pause_reason u reason) ≡ false)
unfolding set_lifecycle
set_lifecycle_ok u now target reason s t e = (ground arith, ground arith, ground arith)

move_to-IsAudited :
    (now : ℕ) (target : SourceLifecycle) (reason : Text) (s : Source)
    → IsAudited s
    → (target ≡ active → passes s.verification_status ≡ true)
    → (target ≡ paused → is_empty reason ≡ false)
    → IsAudited (move_to now target reason s)
unfolding move_to
move_to-IsAudited now paused reason s h a r = record {
  active_passes = λ p. a p;
  passes_dated = h.passes_dated;
  paused_stamped = λ _. refl;
  paused_reasoned = λ _. IsReason-take reason (r refl);
  stamped_paused = λ _. refl;
  paused_inactive = λ _. refl;
}
move_to-IsAudited now target reason s h a r = ground arith

set_lifecycle-IsAudited :
    (u : Unicode) (now : ℕ) (target : SourceLifecycle) (reason : Option Text) (s t : Source)
    → set_lifecycle u now target reason s ≡ ok t
    → IsAudited s
    → IsAudited t
set_lifecycle-IsAudited u now target reason s t e h =
    let (same, checked, reasoned) = set_lifecycle_ok u now target reason s t e in
    rw same (move_to-IsAudited now target (pause_reason u reason) s h checked reasoned)

update_health-IsAudited :
    (round : ℕ → ℕ) (now : ℕ) (succeeded : Bool) (duration_ms : ℕ) (http_status : Option ℕ)
    (s : Source)
    → IsAudited s
    → IsAudited (update_health round now succeeded duration_ms http_status s)
unfolding update_health
update_health-IsAudited round now succeeded duration_ms http_status s h = record {
  active_passes = h.active_passes;
  passes_dated = h.passes_dated;
  paused_stamped = h.paused_stamped;
  paused_reasoned = h.paused_reasoned;
  stamped_paused = h.stamped_paused;
  paused_inactive = h.paused_inactive;
}

Step-IsAudited : {s t : Source} → Step s t → IsAudited s → IsAudited t
Step-IsAudited {s} (verify now report) h = record_report-IsAudited now report s h
Step-IsAudited {s} (move u now target reason t e) h =
    set_lifecycle-IsAudited u now target reason s t e h
Step-IsAudited {s} (run round now succeeded duration_ms http_status) h =
    update_health-IsAudited round now succeeded duration_ms http_status s h

IsImported-IsAudited : (s : Source) → IsImported s → IsAudited s
IsImported-IsAudited s h = ground arith

Reach-IsAudited : {s t : Source} → IsImported s → Reach s t → IsAudited t
Reach-IsAudited {s} h here = IsImported-IsAudited s h
Reach-IsAudited h (next r st) = Step-IsAudited st (Reach-IsAudited h r)

-- Whatever verifications, lifecycle moves and runs follow the import of a source, if its lifecycle
-- is `ACTIVE` then its last verification passed, with or without warnings, and is dated; if it is
-- `PAUSED` then it carries a moment and a reason of 1 to 500 characters, and is not active; and
-- only a paused source carries a moment.
pub Reach-audited :
    {s t : Source}
    → IsImported s
    → Reach s t
    → (t.lifecycle_status ≡ active
        → (passes t.verification_status ≡ true) × (is_some t.verification_at ≡ true))
      × (t.lifecycle_status ≡ paused
          → (is_some t.paused_at ≡ true) × IsReason t.paused_reason × (t.is_active ≡ false))
      × (is_some t.paused_at ≡ true → t.lifecycle_status ≡ paused)
Reach-audited h r =
    let a = Reach-IsAudited h r in
    (
      λ p. (a.active_passes p, a.passes_dated (a.active_passes p)),
      λ p. (a.paused_stamped p, a.paused_reasoned p, a.paused_inactive p),
      a.stamped_paused,
    )

-- A source that the scheduler finds due, after whatever operations since its import, is not
-- paused, and its lifecycle is `ACTIVE`, `DEGRADED` or `VERIFIED`; in the first case its last
-- verification passed.
pub is_due_audited :
    {s t : Source} (now : ℕ)
    → IsImported s
    → Reach s t
    → is_due now true t ≡ true
    → (t.lifecycle_status ≢ paused)
      × ((t.lifecycle_status ≡ degraded)
          ⊎ (t.lifecycle_status ≡ verified)
          ⊎ ((t.lifecycle_status ≡ active) × (passes t.verification_status ≡ true)))
unfolding is_due
is_due_audited now h r due = ground (arith, Reach-IsAudited h r)
