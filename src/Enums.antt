-- ===== src/Enums.antt =====
-- app/enums.py: the enumerations whose members the modelled code produces or tests.
pub mod Parse
pub mod RoundTrip
use mathlib.Core.Bool.{Bool, true, false}

pub data HealthStatus : Type 0 where
  healthy degraded failing offline unknown : HealthStatus

pub data OpportunityStatus : Type 0 where
  open_ closed cancelled awarded extended suspended unknown : OpportunityStatus

pub data DataQuality : Type 0 where
  valid incomplete needs_review invalid : DataQuality

pub data EventType : Type 0 where
  opportunity_created opportunity_updated deadline_changed briefing_changed : EventType
  document_added document_changed document_removed contact_changed submission_changed : EventType
  status_changed cancelled extended award_posted other : EventType

pub data JobStatus : Type 0 where
  queued running completed failed retrying cancelled : JobStatus

pub data ErrorStage : Type 0 where
  discovery fetch parse validate normalize deduplicate version document persist unknown : ErrorStage

pub data DuplicateDecision : Type 0 where
  new exact_match probable_match uncertain : DuplicateDecision

pub data SourceLifecycle : Type 0 where
  discovered pending_verification verified active degraded paused disabled : SourceLifecycle

pub data VerificationStatus : Type 0 where
  unverified passed passed_with_warnings failed : VerificationStatus

pub data ApiKeyStatus : Type 0 where
  active revoked expired : ApiKeyStatus

-- `SourceLifecycle.schedulable`
abbrev pub schedulable : SourceLifecycle → Bool
schedulable active = true
schedulable degraded = true
schedulable verified = true
schedulable _ = false
